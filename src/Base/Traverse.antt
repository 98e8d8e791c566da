-- ===== src/Base/Traverse.antt =====
-- A loop that makes one result of each entry of a map and stops at the first failure: what the
-- order of the entries changes.
use mathlib.Core.Path.{◌≡◌, refl}
use mathlib.Core.List.{List, [], ◌∷◌, Permᴰ}
use mathlib.Core.List.Permᴰ as PermD
use dyndao.Base.Outcome.{Outcome, ok, err, panic, ◌>>=◌}

-- Both succeed, with the same results up to order, or both fail, perhaps for different reasons.
abbrev pub SameUpToOrder : {B : Type 0} → Outcome (List B) → Outcome (List B) → Type 0
SameUpToOrder (ok found) (ok again) = Permᴰ found again
SameUpToOrder (ok found) (err e) = ⊥
SameUpToOrder (ok found) (panic p) = ⊥
SameUpToOrder (err e) (ok found) = ⊥
SameUpToOrder (panic p) (ok found) = ⊥
SameUpToOrder _ _ = Unit

module _ {A B : Type 0} (f : A → Outcome B) where
  abbrev pub traverse : List A → Outcome (List B)
  traverse [] = ok []
  traverse (x ∷ rest) = do y ← f x; ys ← traverse rest; ok (y ∷ ys)

  SameUpToOrder-refl : (r : Outcome (List B)) → SameUpToOrder r r
  SameUpToOrder-refl (ok ys) = PermD.refl ys
  SameUpToOrder-refl (err e) = tt
  SameUpToOrder-refl (panic p) = tt

  SameUpToOrder-trans :
      (r s t : Outcome (List B)) → SameUpToOrder r s → SameUpToOrder s t → SameUpToOrder r t
  SameUpToOrder-trans (ok xs) (ok ys) (ok zs) p q = PermD.trans p q
  SameUpToOrder-trans (ok xs) (ok ys) (err e) p q = q
  SameUpToOrder-trans (ok xs) (ok ys) (panic e) p q = q
  SameUpToOrder-trans (ok xs) (err e) t p q = absurd p
  SameUpToOrder-trans (ok xs) (panic e) t p q = absurd p
  SameUpToOrder-trans (err e) (ok ys) t p q = absurd p
  SameUpToOrder-trans (panic e) (ok ys) t p q = absurd p
  SameUpToOrder-trans (err e) (err e2) (ok zs) p q = q
  SameUpToOrder-trans (err e) (panic e2) (ok zs) p q = q
  SameUpToOrder-trans (panic e) (err e2) (ok zs) p q = q
  SameUpToOrder-trans (panic e) (panic e2) (ok zs) p q = q
  SameUpToOrder-trans (err e) s (err e3) p q = tt
  SameUpToOrder-trans (err e) s (panic e3) p q = tt
  SameUpToOrder-trans (panic e) s (err e3) p q = tt
  SameUpToOrder-trans (panic e) s (panic e3) p q = tt

  -- One entry in front of two runs that agree
  cons-SameUpToOrder :
      (m : Outcome B) (r s : Outcome (List B))
      → SameUpToOrder r s
      → SameUpToOrder (m >>= λ y. r >>= λ ys. ok (y ∷ ys)) (m >>= λ y. s >>= λ ys. ok (y ∷ ys))
  cons-SameUpToOrder (ok y) (ok xs) (ok ys) same = PermD.cons refl same
  cons-SameUpToOrder (ok y) (ok xs) (err e) same = same
  cons-SameUpToOrder (ok y) (ok xs) (panic e) same = same
  cons-SameUpToOrder (ok y) (err e) (ok ys) same = same
  cons-SameUpToOrder (ok y) (panic e) (ok ys) same = same
  cons-SameUpToOrder (ok y) (err e) (err e2) same = tt
  cons-SameUpToOrder (ok y) (err e) (panic e2) same = tt
  cons-SameUpToOrder (ok y) (panic e) (err e2) same = tt
  cons-SameUpToOrder (ok y) (panic e) (panic e2) same = tt
  cons-SameUpToOrder (err e) r s same = tt
  cons-SameUpToOrder (panic e) r s same = tt

  swap-SameUpToOrder :
      (m n : Outcome B) (r : Outcome (List B))
      → SameUpToOrder
          (m >>= λ x. (n >>= λ y. r >>= λ ys. ok (y ∷ ys)) >>= λ zs. ok (x ∷ zs))
          (n >>= λ y. (m >>= λ x. r >>= λ ys. ok (x ∷ ys)) >>= λ zs. ok (y ∷ zs))
  swap-SameUpToOrder (ok x) (ok y) (ok ys) = PermD.swap refl refl
  swap-SameUpToOrder (ok x) (ok y) (err e) = tt
  swap-SameUpToOrder (ok x) (ok y) (panic e) = tt
  swap-SameUpToOrder (ok x) (err e) r = tt
  swap-SameUpToOrder (ok x) (panic e) r = tt
  swap-SameUpToOrder (err e) (ok y) r = tt
  swap-SameUpToOrder (panic e) (ok y) r = tt
  swap-SameUpToOrder (err e) (err e2) r = tt
  swap-SameUpToOrder (err e) (panic e2) r = tt
  swap-SameUpToOrder (panic e) (err e2) r = tt
  swap-SameUpToOrder (panic e) (panic e2) r = tt

  pub traverse-Permᴰ : {xs ys : List A} → Permᴰ xs ys → SameUpToOrder (traverse xs) (traverse ys)
  traverse-Permᴰ PermD.nil = PermD.nil
  traverse-Permᴰ (PermD.cons {a = x} {b = y} {l₁ = xs} {l₂ = ys} same rest) =
      rw same (cons-SameUpToOrder (f y) (traverse xs) (traverse ys) (traverse-Permᴰ rest))
  traverse-Permᴰ (PermD.swap {a = x} {b = y} {l = xs} same same') =
      rw (← same, ← same') (swap-SameUpToOrder (f x) (f y) (traverse xs))
  traverse-Permᴰ (PermD.trans {l₁ = xs} {l₂ = ys} {l₃ = zs} p q) =
      SameUpToOrder-trans (traverse xs) (traverse ys) (traverse zs) (traverse-Permᴰ p)
        (traverse-Permᴰ q)

module _ {C R : Type 0} (make : List C → R) where
  abbrev pub made : Outcome (List C) → Outcome R
  made r = r >>= λ cs. ok (make cs)

  -- Two runs over the entries of a map, in two orders: each makes its result of one result for every
  -- entry, in the order of its range, and fails where an entry does. The two have the same results but
  -- for their order, or both fail.
  abbrev pub SameVia :
      {A : Type 0} → (A → Outcome C) → List A → List A → Outcome R → Outcome R → Type 0
  SameVia f xs ys first second =
      (first ≡ made (traverse f xs))
      × (second ≡ made (traverse f ys))
      × SameUpToOrder (traverse f xs) (traverse f ys)

  -- What is made of the results is made further.
  pub made-made :
      {R' : Type 0} (f : R → R') (r : Outcome (List C))
      → (made r >>= λ x. ok (f x)) ≡ (r >>= λ cs. ok (f (make cs)))
  made-made f (ok found) = refl
  made-made f (err e) = refl
  made-made f (panic p) = refl
