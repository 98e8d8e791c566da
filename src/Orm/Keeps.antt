-- ===== src/Orm/Keeps.antt =====
-- What a function of orm/ leaves as it was, however it ends.
use dyndao.Base.{Bool, true, false, if◌then◌else◌, Option, none, some, ◌≡◌, refl, ◌∙◌}
use dyndao.Base.Outcome.{Error, Outcome, ok, err, panic}
use dyndao.Orm.{Act, or_fail, or_crash, proceed, ◌>>=◌}

-- The action does not change what `part` reads of the state.
abbrev pub Keeps : {S A B : Type 0} → (S → B) → Act S A → Type 0
Keeps {S} part m = (s : S) → part (m s).1 ≡ part s

module _ {S A B C : Type 0} (part : S → C) where
  proceed-Keeps :
      (r : Outcome A) (k : A → Act S B) (s : S)
      → ((a : A) → Keeps part (k a))
      → part (proceed r k s).1 ≡ part s
  proceed-Keeps (ok a) k s rest = rest a s
  proceed-Keeps (err e) k s rest = refl
  proceed-Keeps (panic p) k s rest = refl

  pub bind-Keeps :
      (m : Act S A) (k : A → Act S B)
      → Keeps part m
      → ((a : A) → Keeps part (k a))
      → Keeps part (m >>= k)
  bind-Keeps m k first rest s = proceed-Keeps (m s).0 k (m s).1 rest ∙ first s

module _ {S A C : Type 0} (part : S → C) where
  pub or_fail-Keeps : (found : Option A) (e : Error) → Keeps part (or_fail found e)
  or_fail-Keeps none e s = refl
  or_fail-Keeps (some a) e s = refl

  pub or_crash-Keeps : (found : Option A) → Keeps part (or_crash found)
  or_crash-Keeps none s = refl
  or_crash-Keeps (some a) s = refl

  pub if-Keeps :
      (b : Bool) (m m' : Act S A) → Keeps part m → Keeps part m' → Keeps part (if b then m else m')
  if-Keeps true m m' first second = first
  if-Keeps false m m' first second = second
