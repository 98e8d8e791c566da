-- ===== src/Orm/Tree/Rollback.antt =====
-- How `SaveAll` of orm/save.go ends its transaction.
use dyndao.Base.{ℕ, ◌≡◌, arith, none, some}
use dyndao.Base.Int.{ℤ}
use dyndao.Base.Outcome.{Error, ok, err, wrap}
use dyndao.Orm.{Orm, check_ctx}
use dyndao.Orm.Tree.{Forest, error_text, recurse_and_save, save_all_inside_tx, save_all}

module _ {S : Type 0} (o : Orm S) where
  inside_rolls_back :
      (fuel at tx : ℕ) (h h' : Forest S) (w : S) (e : Error)
      → o.raw_conn.ctx_err h.world ≡ none
      → recurse_and_save o fuel (some tx) at h ≡ (err e, h')
      → o.raw_conn.rollback tx h'.world ≡ (ok tt, w)
      → save_all_inside_tx o fuel tx at h ≡ (err e, record h' { world = w })
  unfolding save_all_inside_tx check_ctx
  inside_rolls_back fuel at tx h h' w e live failed first = ground arith

  -- When the objects of a tree cannot be saved, `SaveAll` rolls its transaction back twice: once in
  -- `SaveAllInsideTx`, and once more itself. The error of the second rollback (database/sql reports
  -- that the transaction is done) comes in the error that the caller gets.
  pub failed_save_rolls_back_twice :
      (fuel at tx : ℕ) (h h' : Forest S) (w w1 w2 : S) (e e2 : Error)
      → o.raw_conn.ctx_err h.world ≡ none
      → o.raw_conn.begin_tx h.world ≡ (ok tx, w)
      → o.raw_conn.ctx_err w ≡ none
      → recurse_and_save o fuel (some tx) at (record h { world = w }) ≡ (err e, h')
      → o.raw_conn.rollback tx h'.world ≡ (ok tt, w1)
      → o.raw_conn.rollback tx w1 ≡ (err e2, w2)
      → save_all o fuel at h ≡ (err (wrap e (error_text e2)), record h' { world = w2 })
  unfolding save_all check_ctx
  failed_save_rolls_back_twice fuel at tx h h' w w1 w2 e e2 live begun still failed first second =
      ground
        (arith, inside_rolls_back fuel at tx (record h { world = w }) h' w1 e still failed first)

  -- While the context lives, when the objects of a tree are saved in a transaction that was begun for
  -- them, and its commit succeeds, `SaveAll` returns the rows of the root and leaves the state of that
  -- commit: nothing is done after it.
  pub saved_tree_commits_once :
      (fuel at tx : ℕ) (h h' : Forest S) (w w' : S) (n : ℤ)
      → o.raw_conn.ctx_err h.world ≡ none
      → o.raw_conn.begin_tx h.world ≡ (ok tx, w)
      → o.raw_conn.ctx_err w ≡ none
      → recurse_and_save o fuel (some tx) at (record h { world = w }) ≡ (ok n, h')
      → o.raw_conn.commit tx h'.world ≡ (ok tt, w')
      → save_all o fuel at h ≡ (ok n, record h' { world = w' })
  unfolding save_all save_all_inside_tx check_ctx
  saved_tree_commits_once fuel at tx h h' w w' n live begun still saved committed = ground arith
