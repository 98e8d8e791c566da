-- ===== src/Orm/Write/Succeeds.antt =====
-- When `Insert` of orm/insert.go succeeds.
use dyndao.Base.{
  ℕ, String, ◌<>◌, ◌≡◌, refl, Bool, true, false, not, ◌&&◌, Option, none, some, List, [],
}
use dyndao.Base.Map.{Map}
use dyndao.Base.Int.{ℤ}
use dyndao.Base.Outcome.{Outcome, ok, err, panic, is_ok}
use dyndao.Value.{Value}
use dyndao.Schema.{Table}
use dyndao.Core.Insert.{binding_insert}
use dyndao.Orm.{
  Act, ExecResult, Database, Session, Orm, HookFunction, call_hook_if_needed, stmt_from_db_or_tx,
  deferred, ◌>>=◌, on_world,
}
use dyndao.Orm.Write.{insert_with, insert_args}

abbrev pub executed : Outcome ExecResult → Bool
executed (ok res) = is_ok res.last_insert_id && is_ok res.rows_affected
executed (err e) = false
executed (panic p) = false

-- A database that fails no call, under a context that is not cancelled
pub record NeverFails {S : Type 0} (db : Database S) : Type 0 where
  pub live : (w : S) → db.ctx_err w ≡ none
  pub prepares : (tx : Option ℕ) (sql : String) (w : S) → is_ok (db.prepare tx sql w).0 ≡ true
  pub executes : (stmt : ℕ) (args : List Value) (w : S) → executed (db.exec stmt args w).0 ≡ true

-- In a state the database prepares this statement, and executes it with these arguments.
abbrev pub Accepts : {S : Type 0} → Database S → Option ℕ → S → String → List Value → Type 0
Accepts {S} db tx w sql args =
    (stmt : ℕ) × (w1 : S) × (db.prepare tx sql w ≡ (ok stmt, w1))
    × (executed (db.exec stmt args w1).0 ≡ true)

module _ {S : Type 0} (o : Orm S) where
  pub no_hook :
      (hooks : Map (HookFunction S)) (st : Session S)
      → hooks ≡ []
      → call_hook_if_needed o hooks st ≡ (ok tt, st)
  unfolding call_hook_if_needed dyndao.Base.Map.lookup
  no_hook hooks st none_set = rw none_set refl

  module _ (tx : Option ℕ) (t : Table) (unhooked : o.after_create_hooks ≡ [])
      (plain : o.sql_gen.fix_last_insert_id_bug ≡ false) where
    -- What follows the statement's text
    abbrev run_insert : String × List Value → Act (Session S) ℤ
    run_insert (sql, args) = insert_args o t args >>= λ bind_args.
        on_world (stmt_from_db_or_tx o tx sql) >>= λ stmt.
        deferred (λ st. record st { world = o.raw_conn.close_stmt stmt st.world })
          (insert_with o t bind_args stmt)

    -- The database accepts the statement that BindingInsert makes of the object, if it makes one.
    abbrev pub AcceptsInsert : Session S → Type 0
    AcceptsInsert st =
        (sql : String) (args : List Value)
        → binding_insert o.remove_nils o.std o.sql_gen o.schema st.object.object_type
            (some st.object.kv)
          ≡ ok (sql, args)
        → Accepts o.raw_conn tx st.world sql args
