-- ===== src/Orm/Tree/Clean/Step.antt =====
-- One step of the recursion in orm/save.go: which objects it makes clean, and which it may make dirty.
use dyndao.Base.{
  ℕ, zero, suc, Bool, true, false, not, Option, none, some, List, [], ◌∷◌, ◌≡◌, refl, ◌≢◌, ap, ◌∙◌,
  ◌<>◌, if◌then◌else◌, ◌⊎◌, get_elem?, set_elem,
}
use dyndao.Base.Map.{Map, lookup, contains, entries}
use dyndao.Base.Outcome.{Error, Outcome, ok, err, panic, message}
use dyndao.Base.Int.{ℤ}
use dyndao.Value.{Value}
use dyndao.Schema.{Table}
use dyndao.Object.{Object, Array, set}
use dyndao.Orm.{Act, Orm, Session, pure, or_fail, modify, ◌>>=◌}
use dyndao.Orm.Post.{Post, bind-Post, or_crash-Post, or_fail-Post, if-Post}
use dyndao.Orm.Save.{save}
use dyndao.Orm.Save.Clean.{CleanObject, save-CleanObject}
use dyndao.Orm.Tree.{Forest, load, store, on_object, propagate}

-- There is a clean object at this address.
abbrev pub clean_at : List Object → ℕ → Bool
clean_at [] at = false
clean_at (obj ∷ objs) zero = not obj.dirty
clean_at (obj ∷ objs) (suc at) = clean_at objs at

-- An address among those of an array, or of a map of arrays
abbrev pub InArray : ℕ → Array → Type 0
InArray c [] = ⊥
InArray c (none ∷ rest) = InArray c rest
InArray c (some at ∷ rest) = (at ≡ c) ⊎ InArray c rest

abbrev pub InArrays : ℕ → Map Array → Type 0
InArrays c [] = ⊥
InArrays c ((name, children) ∷ rest) = InArray c children ⊎ InArrays c rest

-- The second address is in the tree that hangs at the first.
pub data Below (shape : List (Map Array)) : ℕ → ℕ → Type 0 where
  itself : {at : ℕ} → Below shape at at
  through :
      {at below : ℕ}
      → (child : ℕ) (children : Map Array) → get_elem? shape at ≡ some children
      → InArrays child children
      → Below shape child below
      → Below shape at below

set_clean :
    (objs : List Object) (at : ℕ) (old new : Object)
    → get_elem? objs at ≡ some old
    → new.dirty ≡ false
    → clean_at (set_elem objs at new) at ≡ true
set_clean [] at old new found clean = cc
set_clean (obj ∷ objs) zero old new found clean = rw clean refl
set_clean (obj ∷ objs) (suc at) old new found clean = set_clean objs at old new found clean

set_apart :
    (objs : List Object) (at x : ℕ) (new : Object)
    → at ≢ x
    → clean_at (set_elem objs at new) x ≡ clean_at objs x
set_apart [] at x new apart = refl
set_apart (obj ∷ objs) zero zero new apart = absurd (apart refl)
set_apart (obj ∷ objs) zero (suc x) new apart = refl
set_apart (obj ∷ objs) (suc at) zero new apart = refl
set_apart (obj ∷ objs) (suc at) (suc x) new apart = set_apart objs at x new (λ e. apart (ap suc e))

-- Which objects of a forest are clean
abbrev pub IsClean : {S : Type 0} → Forest S → ℕ → Type 0
IsClean h x = clean_at h.objects x ≡ true

-- What was clean still is.
abbrev pub StaysClean : {S : Type 0} → Forest S → Forest S → Type 0
StaysClean h h' = (x : ℕ) → IsClean h x → IsClean h' x

-- The same, but for one object
abbrev pub StaysCleanBut : {S : Type 0} → ℕ → Forest S → Forest S → Type 0
StaysCleanBut at h h' = (x : ℕ) → at ≢ x → IsClean h x → IsClean h' x

module _ {S : Type 0} (o : Orm S) where
  -- What is known of an object that was loaded
  abbrev Loaded : ℕ → Forest S → Object → Forest S → Type 0
  Loaded at h obj h' = (get_elem? h'.objects at ≡ some obj) × (h'.objects ≡ h.objects)

  load-Loaded : (at : ℕ) (h : Forest S) → Post (Loaded at h) (load o at h)
  load-Loaded at h =
      or_crash-Post (Loaded at h) (get_elem? h.objects at) h (λ obj found. (found, refl))

  stored-IsClean :
      (at : ℕ) (h h' : Forest S) (obj : Object) (ran : Outcome ℤ × Session S)
      → Loaded at h obj h'
      → Post CleanObject ran
      → Post
          (λ n h''. StaysCleanBut at h h'' × IsClean h'' at)
          (ran.0, record (store o at ran.1.object h') { world = ran.1.world })
  stored-IsClean at h h' obj (ok n, st) found clean = (
    λ x apart was.
        set_apart h'.objects at x st.object apart ∙ ap (λ objs. clean_at objs x) found.1 ∙ was,
    set_clean h'.objects at obj st.object found.0 clean,
  )
  stored-IsClean at h h' obj (err e, st) found clean = tt
  stored-IsClean at h h' obj (panic p, st) found clean = tt

  pub on_object-IsClean :
      (tx : Option ℕ) (at : ℕ) (h : Forest S)
      → Post (λ n h'. StaysCleanBut at h h' × IsClean h' at) (on_object o at (save o tx) h)
  unfolding on_object
  on_object-IsClean tx at h =
      bind-Post (Loaded at h) (λ n h'. StaysCleanBut at h h' × IsClean h' at) (load o at)
        (λ obj h'.
          let (r, st) = save o tx (record { object = obj; world = h'.world }) in
          (r, record (store o at st.object h') { world = st.world }))
        h (load-Loaded at h)
        λ obj h' found.
          let ran = save o tx (record { object = obj; world = h'.world }) in
          stored-IsClean at h h' obj ran found
            (save-CleanObject o tx (record { object = obj; world = h'.world }))

  pub propagate-StaysCleanBut :
      (t : Table) (v : Value) (at : ℕ) (h : Forest S)
      → Post (λ u h'. StaysCleanBut at h h') (propagate o t v at h)
  unfolding propagate
  propagate-StaysCleanBut t v at h =
      let next : Object → Table → Act (Forest S) (Unit {0}) = λ child child_table.
        if contains t.primary (entries child_table.columns)
        then modify (store o at (set o.std t.primary v child))
        else pure tt in
      let unknown : Object → Error =
        λ child. message ("recurseAndSave: Unknown child object type " <> child.object_type) in
      bind-Post (Loaded at h) (λ u h'. StaysCleanBut at h h') (load o at)
        (λ child. or_fail (lookup child.object_type o.schema.tables) (unknown child) >>= next child)
        h (load-Loaded at h)
        λ child h1 found.
          bind-Post (λ child_table h2. Loaded at h child h2) (λ u h'. StaysCleanBut at h h')
            (or_fail (lookup child.object_type o.schema.tables) (unknown child)) (next child) h1
            (or_fail-Post (λ child_table h2. Loaded at h child h2)
              (lookup child.object_type o.schema.tables) (unknown child) h1
              (λ child_table has. found))
            λ child_table h2 found2.
              if-Post (λ u h'. StaysCleanBut at h h')
                (contains t.primary (entries child_table.columns))
                (modify (store o at (set o.std t.primary v child))) (pure tt) h2
                (λ yes_column x apart was.
                  set_apart h2.objects at x (set o.std t.primary v child) apart
                  ∙ ap (λ objs. clean_at objs x) found2.1
                  ∙ was)
                (λ no_column x apart was. ap (λ objs. clean_at objs x) found2.1 ∙ was)
