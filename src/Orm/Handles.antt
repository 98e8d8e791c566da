-- ===== src/Orm/Handles.antt =====
-- What database/sql does with prepared statements, as far as their number matters.
use dyndao.Base.{ℕ, suc, ◌-◌, String, Option, List, ◌≡◌}
use dyndao.Base.Outcome.{ok, err, panic}
use dyndao.Value.{Value}
use dyndao.Orm.{Database}

-- A driver that counts its open statements: a successful prepare adds one, a close takes one away, and
-- nothing else changes their number.
pub record Counts {S : Type 0} (db : Database S) (open_stmts : S → ℕ) : Type 0 where
  pub count_prepare :
      (tx : Option ℕ) (sql : String) (w : S)
      → open_stmts (db.prepare tx sql w).1 ≡ elim (db.prepare tx sql w).0 [
        | ok stmt ↦ suc (open_stmts w)
        | err e ↦ open_stmts w
        | panic p ↦ open_stmts w
      ]
  pub count_close : (stmt : ℕ) (w : S) → open_stmts (db.close_stmt stmt w) ≡ open_stmts w - 1
  pub count_exec :
      (stmt : ℕ) (args : List Value) (w : S) → open_stmts (db.exec stmt args w).1 ≡ open_stmts w
  pub count_query :
      (stmt : ℕ) (args : List Value) (w : S) → open_stmts (db.query stmt args w).1 ≡ open_stmts w
  pub count_close_rows : (w : S) → open_stmts (db.close_rows w) ≡ open_stmts w
