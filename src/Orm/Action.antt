-- ===== src/Orm/Action.antt =====
-- A Go function that runs against some state: it may return, return an error or panic, and the
-- state that it left stays in each case.
use dyndao.Base.{String, Option, none, some}
use dyndao.Base.Outcome.{Error, Outcome, ok, err, panic}
use dyndao.Core.Statements.{wrap_err}

abbrev pub Act : Type 0 → Type 0 → Type 0
Act S A = S → Outcome A × S

module _ {S A : Type 0} where
  abbrev pub pure : A → Act S A
  pure a s = (ok a, s)

  abbrev pub fail : Error → Act S A
  fail e s = (err e, s)

  abbrev pub crash : String → Act S A
  crash text s = (panic text, s)

  -- A call that touches no state
  abbrev pub lift : Outcome A → Act S A
  lift r s = (r, s)

  abbrev pub or_fail : Option A → Error → Act S A
  or_fail none e = fail e
  or_fail (some a) e = pure a

  abbrev pub or_crash : Option A → Act S A
  or_crash none = crash "nil pointer dereference"
  or_crash (some a) = pure a

  abbrev pub wrapped : String → Act S A → Act S A
  wrapped text m s = let (r, s') = m s in (wrap_err text r, s')

  -- A deferred call, which runs however the function ends
  abbrev pub deferred : (S → S) → Act S A → Act S A
  deferred last m s = let (r, s') = m s in (r, last s')

  abbrev pub gets : (S → A) → Act S A
  gets f s = (ok (f s), s)

abbrev pub modify : {S : Type 0} → (S → S) → Act S (Unit {0})
modify f s = (ok tt, f s)

-- The rest of the function after a call
abbrev pub proceed : {S A B : Type 0} → Outcome A → (A → Act S B) → Act S B
proceed (ok a) f s = f a s
proceed (err e) f s = (err e, s)
proceed (panic text) f s = (panic text, s)

infixl 5 ◌>>=◌ ◌>>◌
abbrev pub ◌>>=◌ : {S A B : Type 0} → Act S A → (A → Act S B) → Act S B
◌>>=◌ m f s = let (r, s') = m s in proceed r f s'

abbrev pub ◌>>◌ : {S A B : Type 0} → Act S A → Act S B → Act S B
m >> k = m >>= λ _. k
