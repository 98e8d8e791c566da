-- ===== src/Orm/Tree/Fuel.antt =====
-- The fuel of `recurse_and_save`, which stands for Go's stack in `recurseAndSave` of orm/save.go.
use dyndao.Base.{
  ℕ, zero, suc, ◌+◌, Bool, false, ◌==◌, Option, none, some, [], ◌∷◌, ◌≡◌, refl, ap, ◌∙◌, arith,
}
use dyndao.Base.Map.{Map}
use dyndao.Base.Outcome.{Outcome, ok, err, panic}
use dyndao.Base.Int.{ℤ}
use dyndao.Value.{Value}
use dyndao.Schema.{Table, get_table}
use dyndao.Object.{Object, Array, get}
use dyndao.Orm.{Act, Orm, pure, or_crash, proceed, ◌>>=◌, ◌>>◌}
use dyndao.Orm.Save.{save}
use dyndao.Orm.Tree.{
  Forest, load, on_object, propagate, save_array, save_children, recurse_and_save,
}

abbrev pub overflows : {A : Type 0} → Outcome A → Bool
overflows (ok a) = false
overflows (err e) = false
overflows (panic p) = p == "stack overflow"

-- Where the first action does not overflow, the second does the same.
abbrev Agree : {S A : Type 0} → Act S A → Act S A → Type 0
Agree {S} m m' = (s : S) → overflows (m s).0 ≡ false → m' s ≡ m s

module _ {S A B : Type 0} where
  proceed-Agree :
      (r : Outcome B) (k k' : B → Act S A) (s : S) (ran : Outcome B × S)
      → (overflows r ≡ false → ran ≡ (r, s))
      → ((b : B) → Agree (k b) (k' b))
      → overflows (proceed r k s).0 ≡ false
      → proceed ran.0 k' ran.1 ≡ proceed r k s
  proceed-Agree (ok b) k k' s ran same rest h = rw (same refl) (rest b s h)
  proceed-Agree (err e) k k' s ran same rest h = rw (same refl) refl
  proceed-Agree (panic p) k k' s ran same rest h = rw (same h) refl

  bind-Agree :
      (m m' : Act S B) (k k' : B → Act S A)
      → Agree m m'
      → ((b : B) → Agree (k b) (k' b))
      → Agree (m >>= k) (m' >>= k')
  bind-Agree m m' k k' first rest s h = proceed-Agree (m s).0 k k' (m s).1 (m' s) (first s) rest h

module _ {S : Type 0} (o : Orm S) where
  module _ (f f' : ℕ → Act (Forest S) ℤ) (same : (at : ℕ) → Agree (f at) (f' at)) (t : Table)
      (v : Value) where
    save_array-Agree :
        (children : Array) → Agree (save_array o f t v children) (save_array o f' t v children)
    unfolding save_array
    save_array-Agree [] = λ s h. refl
    save_array-Agree (none ∷ rest) = λ s h. refl
    save_array-Agree (some at ∷ rest) =
        bind-Agree (propagate o t v at) (propagate o t v at) (λ u. f at >> save_array o f t v rest)
          (λ u. f' at >> save_array o f' t v rest) (λ s h. refl)
          (λ u.
            bind-Agree (f at) (f' at) (λ n. save_array o f t v rest) (λ n. save_array o f' t v rest)
              (same at) (λ n. save_array-Agree rest))

    save_children-Agree :
        (children : Map Array)
        → Agree (save_children o f t v children) (save_children o f' t v children)
    unfolding save_children
    save_children-Agree [] = λ s h. refl
    save_children-Agree ((name, children) ∷ rest) =
        bind-Agree (save_array o f t v children) (save_array o f' t v children)
          (λ u. save_children o f t v rest) (λ u. save_children o f' t v rest)
          (save_array-Agree children) (λ u. save_children-Agree rest)

  more-Agree :
      (fuel : ℕ) (tx : Option ℕ) (at : ℕ)
      → Agree (recurse_and_save o fuel tx at) (recurse_and_save o (suc fuel) tx at)
  unfolding recurse_and_save
  more-Agree zero tx at = λ s h. cc
  more-Agree (suc fuel) tx at =
      let f = recurse_and_save o fuel tx in
      let f' = recurse_and_save o (suc fuel) tx in
      let children : (ℕ → Act (Forest S) ℤ) → ℤ → Object → Table → Act (Forest S) ℤ =
        λ g rows obj t. save_children o g t (get t.primary obj) obj.children >> pure rows in
      bind-Agree (on_object o at (save o tx)) (on_object o at (save o tx))
        (λ rows. load o at >>= λ obj.
          or_crash (get_table o.schema obj.object_type) >>= children f rows obj)
        (λ rows. load o at >>= λ obj.
          or_crash (get_table o.schema obj.object_type) >>= children f' rows obj)
        (λ s h. refl)
        λ rows.
          bind-Agree (load o at) (load o at)
            (λ obj. or_crash (get_table o.schema obj.object_type) >>= children f rows obj)
            (λ obj. or_crash (get_table o.schema obj.object_type) >>= children f' rows obj)
            (λ s h. refl)
            λ obj.
              bind-Agree (or_crash (get_table o.schema obj.object_type))
                (or_crash (get_table o.schema obj.object_type)) (children f rows obj)
                (children f' rows obj) (λ s h. refl)
                λ t.
                  bind-Agree (save_children o f t (get t.primary obj) obj.children)
                    (save_children o f' t (get t.primary obj) obj.children) (λ u. pure rows)
                    (λ u. pure rows)
                    (save_children-Agree f f' (more-Agree fuel tx) t (get t.primary obj)
                      obj.children)
                    (λ u s h. refl)

  -- More fuel changes nothing, neither the result nor the state, once the recursion over a tree ends
  -- with any result, error or panic other than a stack overflow.
  pub enough_fuel :
      (extra fuel : ℕ) (tx : Option ℕ) (at : ℕ) (h : Forest S)
      → overflows (recurse_and_save o fuel tx at h).0 ≡ false
      → recurse_and_save o (extra + fuel) tx at h ≡ recurse_and_save o fuel tx at h
  enough_fuel zero fuel tx at h ran =
      let none_extra : zero + fuel ≡ fuel = omega arith in
      ap (λ n. recurse_and_save o n tx at h) none_extra
  enough_fuel (suc extra) fuel tx at h ran =
      let before = enough_fuel extra fuel tx at h ran in
      let one_more : suc extra + fuel ≡ suc (extra + fuel) = omega arith in
      ap (λ n. recurse_and_save o n tx at h) one_more
      ∙ more-Agree (extra + fuel) tx at h (rw before ran)
      ∙ before
