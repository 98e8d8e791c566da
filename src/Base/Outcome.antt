-- ===== src/Base/Outcome.antt =====
-- The ways in which a Go call ends: it returns, it returns an error, or it panics.
use Prim.Native.String.{String}
use mathlib.Core.Path.{◌≡◌, refl}
use mathlib.Core.Bool.{Bool, true, false}
use dyndao.Base.Tests.{if◌then◌else◌}

-- The sentinel errors of package object, errors built from a text, `errors.Wrap`, and those of
-- the driver and of `context`.
pub data Error : Type 0 where
  key_was_missing value_was_nil : Error
  message : String → Error
  wrap : Error → String → Error
  external : String → Error

pub data Outcome {ℓ} (Res : Type ℓ) : Type ℓ where
  panic : String → Outcome Res
  err : Error → Outcome Res
  ok : Res → Outcome Res

infixl 5 ◌>>=◌ ◌>>◌
-- The rest of a function after a call
abbrev pub ◌>>=◌ {ℓ κ} :
    {Res : Type ℓ} {Next : Type κ} → Outcome Res → (Res → Outcome Next) → Outcome Next
panic text >>= rest = panic text
err cause >>= rest = err cause
ok res >>= rest = rest res

abbrev pub ◌>>◌ {ℓ κ} : {Res : Type ℓ} {Next : Type κ} → Outcome Res → Outcome Next → Outcome Next
call >> next = call >>= (λ res. next)

abbrev pub is_ok {ℓ} : {A : Type ℓ} → Outcome A → Bool
is_ok (ok a) = true
is_ok (err e) = false
is_ok (panic p) = false

pub is_ok-eq {ℓ} : {A : Type ℓ} (r : Outcome A) → is_ok r ≡ true → (a : A) × (r ≡ ok a)
is_ok-eq (ok a) h = (a, refl)
is_ok-eq (err e) h = cc
is_ok-eq (panic p) h = cc

-- The call returns with no error and no panic.
abbrev pub Succeeds {ℓ} : {A : Type ℓ} → Outcome A → Type 0
Succeeds (ok a) = Unit
Succeeds (err e) = ⊥
Succeeds (panic s) = ⊥

pub Succeeds-eq {ℓ} : {A : Type ℓ} (r : Outcome A) → Succeeds r → (a : A) × (r ≡ ok a)
Succeeds-eq (ok a) h = (a, refl)
Succeeds-eq (err e) h = absurd h
Succeeds-eq (panic s) h = absurd h

-- What holds of the result, if there is one
abbrev pub OnOk {ℓ κ} : {A : Type ℓ} → (A → Type κ) → Outcome A → Type κ
OnOk P (ok a) = P a
OnOk P (err e) = Unit
OnOk P (panic p) = Unit

module _ {ℓ κ} {A : Type ℓ} {B : Type κ} (Q : B → Type κ) where
  pub OnOk-each : (r : Outcome A) (f : A → Outcome B) → ((a : A) → OnOk Q (f a)) → OnOk Q (r >>= f)
  OnOk-each (ok a) f next = next a
  OnOk-each (err e) f next = tt
  OnOk-each (panic p) f next = tt

  pub OnOk-then :
      (P : A → Type ℓ) (r : Outcome A) (f : A → Outcome B)
      → OnOk P r
      → ((a : A) → P a → OnOk Q (f a))
      → OnOk Q (r >>= f)
  OnOk-then P (ok a) f holds next = next a holds
  OnOk-then P (err e) f holds next = tt
  OnOk-then P (panic p) f holds next = tt

pub OnOk-weaken {ℓ κ ι} :
    {A : Type ℓ} (P : A → Type κ) (Q : A → Type ι) (r : Outcome A)
    → ((a : A) → P a → Q a)
    → OnOk P r
    → OnOk Q r
OnOk-weaken P Q (ok a) weaker holds = weaker a holds
OnOk-weaken P Q (err e) weaker holds = tt
OnOk-weaken P Q (panic p) weaker holds = tt

-- What is known of the result, given what it is
pub OnOk-run {ℓ κ} :
    {A : Type ℓ} (P : A → Type κ) (r : Outcome A) → ((a : A) → r ≡ ok a → P a) → OnOk P r
OnOk-run P (ok a) known = known a refl
OnOk-run P (err e) known = tt
OnOk-run P (panic p) known = tt

pub OnOk-if {ℓ κ} :
    {A : Type ℓ} (P : A → Type κ) (b : Bool) (r r' : Outcome A)
    → (b ≡ true → OnOk P r)
    → (b ≡ false → OnOk P r')
    → OnOk P (if b then r else r')
OnOk-if P true r r' on_true on_false = on_true refl
OnOk-if P false r r' on_true on_false = on_false refl
