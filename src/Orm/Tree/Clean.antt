-- ===== src/Orm/Tree/Clean.antt =====
pub mod Step
-- What `recurseAndSave` of orm/save.go achieves: every object of the tree is saved.
use dyndao.Base.{
  ℕ, zero, suc, Bool, true, false, not, eqb, Option, none, some, List, [], ◌∷◌, ◌≡◌, refl, ◌≢◌, ap,
  ◌∙◌, sym, String, ◌<>◌, if◌then◌else◌, ◌⊎◌, inl, inr, get_elem?, set_elem, arith, Bool-cases,
}
use dyndao.Base.Entries.{some-inj}
use dyndao.Base.Map.{Map, lookup, contains, entries}
use dyndao.Base.Outcome.{Error, Outcome, ok, err, panic, message}
use dyndao.Base.Int.{ℤ}
use dyndao.Value.{Value}
use dyndao.Schema.{Table, get_table}
use dyndao.Object.{Object, Array, get, set}
use dyndao.Orm.{Act, Orm, Session, pure, or_crash, or_fail, modify, proceed, ◌>>=◌, ◌>>◌}
use dyndao.Orm.Post.{Post, bind-Post, weaken-Post, kept-Post, or_crash-Post, or_fail-Post, if-Post}
use dyndao.Orm.Save.{save}
use dyndao.Orm.Save.Clean.{CleanObject, save-CleanObject}
use dyndao.Orm.Write.Shape.{TreeHooks}
use dyndao.Orm.Tree.{
  Forest, load, store, on_object, propagate, save_array, save_children, recurse_and_save,
}
use dyndao.Orm.Tree.Keeps.{after_load}
use dyndao.Orm.Tree.Shape.{shape_of, get_elem?-shape, propagate-shape, on_object-shape}
use dyndao.Orm.Tree.Clean.Step.{
  Below, itself, through, InArray, InArrays, IsClean, StaysClean, StaysCleanBut, on_object-IsClean,
  propagate-StaysCleanBut,
}

module _ {S : Type 0} (o : Orm S) (hooks : TreeHooks S o) (shape : List (Map Array)) where
  -- The trees at these addresses are saved, and no clean object was made dirty.
  abbrev pub Saved : (ℕ → Type 0) → Forest S → Forest S → Type 0
  Saved Roots h h' =
      StaysClean h h'
      × ((c x : ℕ) → Roots c → Below shape c x → IsClean h' x)
      × (shape_of h' ≡ shape)

  both-Saved :
      (Roots Others : ℕ → Type 0) (h h1 h2 : Forest S)
      → Saved Roots h h1
      → Saved Others h1 h2
      → Saved (λ c. Roots c ⊎ Others c) h h2
  both-Saved Roots Others h h1 h2 (stays, cleaned, kept) (stays2, cleaned2, kept2) = (
    λ x was. stays2 x (stays x was),
    λ c x root below. elim root [
      | inl first ↦ stays2 x (cleaned c x first below)
      | inr other ↦ cleaned2 c x other below
    ],
    kept2,
  )

  module _ (f : ℕ → Act (Forest S) ℤ)
      (saves : (at : ℕ) (h : Forest S)
        → shape_of h ≡ shape
        → Post (λ n. Saved (λ c. at ≡ c) h) (f at h))
      (t : Table) (v : Value) where
    abbrev Propagated : ℕ → Forest S → Forest S → Type 0
    Propagated at h h' = StaysCleanBut at h h' × (shape_of h' ≡ shape)

    propagate-Propagated :
        (at : ℕ) (h : Forest S)
        → shape_of h ≡ shape
        → Post (λ u. Propagated at h) (propagate o t v at h)
    propagate-Propagated at h here =
        kept-Post (λ u. StaysCleanBut at h) shape_of shape (propagate o t v at h)
          (propagate-shape o hooks t v at h ∙ here) (propagate-StaysCleanBut o t v at h)

    -- What was propagated to an object does not show once its tree is saved.
    child-Saved :
        (at : ℕ) (h h1 h2 : Forest S)
        → Propagated at h h1
        → Saved (λ c. at ≡ c) h1 h2
        → Saved (λ c. at ≡ c) h h2
    child-Saved at h h1 h2 before (stays, cleaned, kept) = (
      λ x was. elim (Bool-cases (eqb at x)) [
        | inl same ↦ let e : at ≡ x = ground arith in cleaned at x refl (rw e itself)
        | inr apart ↦ stays x (before.0 x (λ e. ground arith) was)
      ],
      cleaned,
      kept,
    )

    save_array-Saved :
        (children : Array) (h : Forest S)
        → shape_of h ≡ shape
        → Post (λ u. Saved (λ c. InArray c children) h) (save_array o f t v children h)
    unfolding save_array
    save_array-Saved [] h here = (λ x was. was, λ c x none. absurd none, here)
    save_array-Saved (none ∷ rest) h here = tt
    save_array-Saved (some at ∷ rest) h here =
        let Q : Unit {0} → Forest S → Type 0 = λ u. Saved (λ c. InArray c (some at ∷ rest)) h in
        bind-Post (λ u. Propagated at h) Q (propagate o t v at)
          (λ u. f at >> save_array o f t v rest) h (propagate-Propagated at h here)
          λ u h1 before.
            bind-Post (λ n. Saved (λ c. at ≡ c) h) Q (f at) (λ n. save_array o f t v rest) h1
              (weaken-Post (λ n. Saved (λ c. at ≡ c) h) (λ n. Saved (λ c. at ≡ c) h1) (f at h1)
                (λ n h2 after. child-Saved at h h1 h2 before after) (saves at h1 before.1))
              λ n h2 first.
                weaken-Post Q (λ w. Saved (λ c. InArray c rest) h2) (save_array o f t v rest h2)
                  (λ w h3 others.
                    both-Saved (λ c. at ≡ c) (λ c. InArray c rest) h h2 h3 first others)
                  (save_array-Saved rest h2 first.2)

    save_children-Saved :
        (children : Map Array) (h : Forest S)
        → shape_of h ≡ shape
        → Post (λ u. Saved (λ c. InArrays c children) h) (save_children o f t v children h)
    unfolding save_children
    save_children-Saved [] h here = (λ x was. was, λ c x none. absurd none, here)
    save_children-Saved ((name, children) ∷ rest) h here =
        let Q : Unit {0} → Forest S → Type 0 =
          λ u. Saved (λ c. InArrays c ((name, children) ∷ rest)) h in
        bind-Post (λ u. Saved (λ c. InArray c children) h) Q (save_array o f t v children)
          (λ u. save_children o f t v rest) h (save_array-Saved children h here)
          λ u h1 first.
            weaken-Post Q (λ w. Saved (λ c. InArrays c rest) h1) (save_children o f t v rest h1)
              (λ w h2 others.
                both-Saved (λ c. InArray c children) (λ c. InArrays c rest) h h1 h2 first others)
              (save_children-Saved rest h1 first.2)

  -- The object itself is saved.
  abbrev Rooted : ℕ → Forest S → Forest S → Type 0
  Rooted at h h' = StaysClean h h' × IsClean h' at × (shape_of h' ≡ shape)

  on_object-Rooted :
      (tx : Option ℕ) (at : ℕ) (h : Forest S)
      → shape_of h ≡ shape
      → Post (λ n. Rooted at h) (on_object o at (save o tx) h)
  on_object-Rooted tx at h here =
      weaken-Post (λ n. Rooted at h)
        (λ n h'. (StaysCleanBut at h h' × IsClean h' at) × (shape_of h' ≡ shape))
        (on_object o at (save o tx) h)
        (λ n h' ((stays, clean), kept). (
          λ x was. elim (Bool-cases (eqb at x)) [
            | inl same ↦ let e : at ≡ x = ground arith in rw (← e) clean
            | inr apart ↦ stays x (λ e. ground arith) was
          ],
          clean,
          kept,
        ))
        (kept-Post (λ n h'. StaysCleanBut at h h' × IsClean h' at) shape_of shape
          (on_object o at (save o tx) h) (on_object-shape o hooks tx at h ∙ here)
          (on_object-IsClean o tx at h))

  Below-IsClean :
      (at : ℕ) (h h' : Forest S) (children : Map Array)
      → get_elem? shape at ≡ some children
      → IsClean h at
      → Saved (λ c. InArrays c children) h h'
      → (x : ℕ) → Below shape at x
      → IsClean h' x
  Below-IsClean at h h' children has clean (stays, cleaned, kept) _ itself = stays at clean
  Below-IsClean at h h' children has clean (stays, cleaned, kept) x
        (through child others found among below) =
      cleaned child x (rw (some-inj (sym found ∙ has)) at among) below

  pub recurse_and_save-Saved :
      (fuel : ℕ) (tx : Option ℕ) (at : ℕ) (h : Forest S)
      → shape_of h ≡ shape
      → Post (λ n. Saved (λ c. at ≡ c) h) (recurse_and_save o fuel tx at h)
  unfolding recurse_and_save
  recurse_and_save-Saved zero tx at h here = tt
  recurse_and_save-Saved (suc fuel) tx at h here =
      let f = recurse_and_save o fuel tx in
      let Q : ℤ → Forest S → Type 0 = λ n. Saved (λ c. at ≡ c) h in
      let R : Object → Forest S → Type 0 =
        λ obj h'. (get_elem? shape at ≡ some obj.children) × Rooted at h h' in
      bind-Post (λ n. Rooted at h) Q (on_object o at (save o tx))
        (λ rows. load o at >>= after_load o f rows) h (on_object-Rooted tx at h here)
        λ rows h1 rooted.
          bind-Post R Q (load o at) (after_load o f rows) h1
            (or_crash-Post R (get_elem? h1.objects at) h1 (λ obj found. (
              ap (λ s. get_elem? s at) (sym rooted.2) ∙ get_elem?-shape h1.objects at obj found,
              rooted,
            )))
            λ obj h2 known.
              bind-Post (λ t h'. R obj h') Q (or_crash (get_table o.schema obj.object_type))
                (λ t. save_children o f t (get t.primary obj) obj.children >> pure rows) h2
                (or_crash-Post (λ t h'. R obj h') (get_table o.schema obj.object_type) h2
                  (λ t found. known))
                λ t h3 known3.
                  bind-Post (λ u. Saved (λ c. InArrays c obj.children) h3) Q
                    (save_children o f t (get t.primary obj) obj.children) (λ u. pure rows) h3
                    (save_children-Saved f (recurse_and_save-Saved fuel tx) t (get t.primary obj)
                      obj.children h3 known3.1.2)
                    λ u h4 saved. (
                      λ x was. saved.0 x (known3.1.0 x was),
                      λ c x root below.
                          Below-IsClean at h3 h4 obj.children known3.0 known3.1.1 saved x
                            (rw (← root) at below),
                      saved.2,
                    )
