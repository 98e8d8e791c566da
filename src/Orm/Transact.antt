-- ===== src/Orm/Transact.antt =====
pub mod Outcomes
-- orm/transact.go. The results of the two functions are not named, so what their deferred functions
-- assign to `err` does not reach the caller: neither the error of a commit nor a recovered panic.
use dyndao.Base.{ℕ, Option, none, some}
use dyndao.Base.Outcome.{Outcome, ok, err, panic}
use dyndao.Orm.{Act, ◌>>=◌, proceed, Database, Orm}

module _ {S : Type 0} (o : Orm S) where
  -- The result, once the deferred call of Commit or Rollback has ended: the error of the call reaches
  -- no caller, its panic takes the place of the result.
  after_end : Outcome (Unit {0}) → Outcome (Unit {0}) × S → Outcome (Unit {0}) × S
  after_end r (ok _, w) = (r, w)
  after_end r (err e, w) = (r, w)
  after_end r (panic p, w) = (panic p, w)

  -- The deferred function of `Transact`, by how `txFunc` ended, and what the caller then sees: after
  -- a recovered panic, the zero value of the result, which is a nil error
  finish : ℕ → Outcome (Unit {0}) → Act S (Unit {0})
  unfolding after_end
  finish tx (ok _) w = after_end (ok tt) (o.raw_conn.commit tx w)
  finish tx (err e) w = after_end (err e) (o.raw_conn.rollback tx w)
  finish tx (panic p) w = after_end (ok tt) (o.raw_conn.rollback tx w)

  unfoldable pub transact : (ℕ → Act S (Unit {0})) → Act S (Unit {0})
  unfolding finish
  transact tx_func = do tx ← o.raw_conn.begin_tx; λ w. let (r, w') = tx_func tx w in finish tx r w'

  finish_rethrow : ℕ → Outcome (Unit {0}) → Act S (Unit {0})
  unfolding after_end
  finish_rethrow tx (ok _) w = after_end (ok tt) (o.raw_conn.commit tx w)
  finish_rethrow tx (err e) w = after_end (err e) (o.raw_conn.rollback tx w)
  finish_rethrow tx (panic p) w = after_end (panic p) (o.raw_conn.rollback tx w)

  unfoldable pub transact_rethrow : (ℕ → Act S (Unit {0})) → Act S (Unit {0})
  unfolding finish_rethrow
  transact_rethrow tx_func = do
    tx ← o.raw_conn.begin_tx
    λ w. let (r, w') = tx_func tx w in finish_rethrow tx r w'
