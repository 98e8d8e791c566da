-- ===== src/Orm/Transact/Outcomes.antt =====
-- What a caller of orm/transact.go learns.
use dyndao.Base.{ℕ, ◌≡◌, refl, arith, if◌then◌else◌, Bool, true, false, sym, ◌∙◌}
use dyndao.Base.Outcome.{is_ok, Outcome, ok, err, panic}
use dyndao.Orm.{Act, Orm}
use dyndao.Orm.Transact.{transact, transact_rethrow, finish, finish_rethrow, after_end}

-- The same ORM, with another commit
abbrev pub with_commit : {S : Type 0} → Orm S → (ℕ → S → Outcome (Unit {0}) × S) → Orm S
with_commit o c = record o { raw_conn = record o.raw_conn { commit = c } }

abbrev pub panicked : Outcome (Unit {0}) → Bool
panicked (ok u) = false
panicked (err e) = false
panicked (panic p) = true

-- The ends of Transact and of TransactRethrow, by how the function ended inside of them: after a panic
-- the first returned without error and the second panicked in the same way, in the same state;
-- otherwise both did the same.
abbrev pub BothEnd :
    {S : Type 0} → Outcome (Unit {0}) → Outcome (Unit {0}) × S → Outcome (Unit {0}) × S → Type 0
BothEnd (ok u) end rethrown = end ≡ rethrown
BothEnd (err e) end rethrown = end ≡ rethrown
BothEnd (panic p) end rethrown = (end.0 ≡ ok tt) × (rethrown.0 ≡ panic p) × (end.1 ≡ rethrown.1)

module _ {S : Type 0} (o : Orm S) where
  after_end-state :
      (r : Outcome (Unit {0})) (ended : Outcome (Unit {0}) × S) → (after_end o r ended).1 ≡ ended.1
  unfolding after_end
  after_end-state r (ok u, w) = refl
  after_end-state r (err e, w) = refl
  after_end-state r (panic p, w) = refl

  after_end-result :
      (r : Outcome (Unit {0})) (ended : Outcome (Unit {0}) × S)
      → panicked ended.0 ≡ false
      → (after_end o r ended).0 ≡ r
  unfolding after_end
  after_end-result r (ok u, w) calm = refl
  after_end-result r (err e, w) calm = refl
  after_end-result r (panic p, w) calm = cc

  ends :
      (r : Outcome (Unit {0})) (w : S) (tx : ℕ)
      → let after =
          (if is_ok r then (o.raw_conn.commit tx w).1 else (o.raw_conn.rollback tx w).1) in
        ((finish o tx r w).1 ≡ after) × ((finish_rethrow o tx r w).1 ≡ after)
  unfolding finish finish_rethrow
  ends r w tx = grind (arith, after_end-state)

  both_end :
      (r : Outcome (Unit {0})) (w : S) (tx : ℕ)
      → panicked (o.raw_conn.rollback tx w).0 ≡ false
      → BothEnd r (finish o tx r w) (finish_rethrow o tx r w)
  unfolding finish finish_rethrow
  both_end (ok u) w tx calm = refl
  both_end (err e) w tx calm = refl
  both_end (panic p) w tx calm =
      let ended = o.raw_conn.rollback tx w in
      (
        after_end-result (ok tt) ended calm,
        after_end-result (panic p) ended calm,
        after_end-state (ok tt) ended ∙ sym (after_end-state (panic p) ended),
      )

module _ {S : Type 0} (o : Orm S) (f : ℕ → Act S (Unit {0})) where
  -- Of both functions: once the transaction has begun, it is committed if the function returns
  -- without error, and rolled back if it returns an error or panics; nothing else happens after it.
  pub transact_ends_once :
      (w w1 : S) (tx : ℕ)
      → o.raw_conn.begin_tx w ≡ (ok tx, w1)
      → let after =
          (if is_ok (f tx w1).0
            then (o.raw_conn.commit tx (f tx w1).1).1
            else (o.raw_conn.rollback tx (f tx w1).1).1) in
        ((transact o f w).1 ≡ after) × ((transact_rethrow o f w).1 ≡ after)
  unfolding transact transact_rethrow
  transact_ends_once w w1 tx begun = rw begun (ends o (f tx w1).0 (f tx w1).1 tx)

  -- The error of a commit is lost by both functions: of two commits that return, without a panic,
  -- the caller gets the same result, whether they succeed or fail.
  pub commit_error_lost :
      (w : S) (c : ℕ → S → Outcome (Unit {0}) × S)
      → ((tx : ℕ) (w' : S) → panicked (c tx w').0 ≡ false)
      → ((tx : ℕ) (w' : S) → panicked (o.raw_conn.commit tx w').0 ≡ false)
      → ((transact (with_commit o c) f w).0 ≡ (transact o f w).0)
        × ((transact_rethrow (with_commit o c) f w).0 ≡ (transact_rethrow o f w).0)
  unfolding transact transact_rethrow finish finish_rethrow after_end
  commit_error_lost w c returns old_returns = grind (arith, returns, old_returns)

  -- Once the transaction has begun, and where its rollback returns without a panic: Transact and
  -- TransactRethrow end in the same state with the same result, but for a panic of the function, which
  -- TransactRethrow hands on and Transact turns into a return without error.
  pub panic_becomes_success :
      (w w1 : S) (tx : ℕ)
      → o.raw_conn.begin_tx w ≡ (ok tx, w1)
      → panicked (o.raw_conn.rollback tx (f tx w1).1).0 ≡ false
      → BothEnd (f tx w1).0 (transact o f w) (transact_rethrow o f w)
  unfolding transact transact_rethrow
  panic_becomes_success w w1 tx begun calm = rw begun (both_end o (f tx w1).0 (f tx w1).1 tx calm)
