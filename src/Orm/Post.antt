-- ===== src/Orm/Post.antt =====
-- What holds after a function of orm/ that returns with no error.
use dyndao.Base.{Bool, true, false, if◌then◌else◌, Option, none, some, ◌≡◌, refl}
use dyndao.Base.Outcome.{Error, Outcome, ok, err, panic}
use dyndao.Orm.{Act, or_fail, or_crash, proceed, ◌>>=◌}

-- Where there is a result, this holds of it and of the state that was left.
abbrev pub Post : {S A : Type 0} → (A → S → Type 0) → Outcome A × S → Type 0
Post Q (ok a, s) = Q a s
Post Q (err e, s) = Unit
Post Q (panic p, s) = Unit

module _ {S A B : Type 0} (R : A → S → Type 0) (Q : B → S → Type 0) where
  pub bind-Post :
      (m : Act S A) (k : A → Act S B) (s : S)
      → Post R (m s)
      → ((a : A) (s' : S) → R a s' → Post Q (k a s'))
      → Post Q ((m >>= k) s)
  bind-Post m k s first rest = go (m s) first
    where
      go : (ran : Outcome A × S) → Post R ran → Post Q (proceed ran.0 k ran.1)
      go (ok a, s') holds = rest a s' holds
      go (err e, s') holds = tt
      go (panic p, s') holds = tt

module _ {S A : Type 0} (Q : A → S → Type 0) where
  pub weaken-Post :
      (R : A → S → Type 0) (ran : Outcome A × S)
      → ((a : A) (s : S) → R a s → Q a s)
      → Post R ran
      → Post Q ran
  weaken-Post R (ok a, s) weaker holds = weaker a s holds
  weaken-Post R (err e, s) weaker holds = tt
  weaken-Post R (panic p, s) weaker holds = tt

  pub if-Post :
      (b : Bool) (m m' : Act S A) (s : S)
      → (b ≡ true → Post Q (m s))
      → (b ≡ false → Post Q (m' s))
      → Post Q ((if b then m else m') s)
  if-Post true m m' s on_true on_false = on_true refl
  if-Post false m m' s on_true on_false = on_false refl

  pub or_fail-Post :
      (found : Option A) (e : Error) (s : S)
      → ((a : A) → found ≡ some a → Q a s)
      → Post Q (or_fail found e s)
  or_fail-Post none e s holds = tt
  or_fail-Post (some a) e s holds = holds a refl

  pub or_crash-Post :
      (found : Option A) (s : S) → ((a : A) → found ≡ some a → Q a s) → Post Q (or_crash found s)
  or_crash-Post none s holds = tt
  or_crash-Post (some a) s holds = holds a refl

  -- What is kept however the function ends is kept where it returns a result.
  pub kept-Post :
      {C : Type 0} (part : S → C) (before : C) (ran : Outcome A × S)
      → part ran.1 ≡ before
      → Post Q ran
      → Post (λ a s'. Q a s' × (part s' ≡ before)) ran
  kept-Post part before (ok a, s) kept holds = (holds, kept)
  kept-Post part before (err e, s) kept holds = tt
  kept-Post part before (panic p, s) kept holds = tt
