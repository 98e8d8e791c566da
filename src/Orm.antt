-- ===== src/Orm.antt =====
-- orm/new.go: the ORM, its hooks, and what it uses of database/sql. The connection and its driver
-- are a parameter: operations on a state that they own.
mod Action
pub mod Write
pub mod Save
pub mod Load
pub mod Upsert
pub mod Transact
pub mod Tables
pub mod Tree
pub mod Children
pub mod Keeps
pub mod Post
pub mod Handles
pub use Action.*
use dyndao.Base.{ℕ, Bool, String, Option, none, some, List, []}
use dyndao.Base.Map.{Map, lookup}
use dyndao.Base.Outcome.{Error, Outcome, ok, err, panic}
use dyndao.Base.Int.{ℤ}
use dyndao.Value.{Value, Std}
use dyndao.Schema.{Schema, get_table_name}
use dyndao.Object.{Object}
use dyndao.SqlGen.{ColumnType, Dest, Generator}

-- `sql.Result`, and what a `sql.Out` argument received
pub record ExecResult : Type 0 where
  pub last_insert_id : Outcome ℤ
  pub rows_affected : Outcome ℤ
  pub out_id : ℤ

-- `*sql.Rows`: one `Scan` for each row that `Next` reaches, and what `Err` says at the end
pub record ResultSet : Type 0 where
  pub column_types : Outcome (List ColumnType)
  pub scans : List (List Dest → Outcome (List Dest))
  pub end_err : Option Error

-- Transactions and statements are numbered handles. A prepare with a transaction goes to
-- `tx.PrepareContext`, without one to `RawConn.PrepareContext`.
pub record Database (S : Type 0) : Type 0 where
  pub ctx_err : S → Option Error
  pub begin_tx : S → Outcome ℕ × S
  pub commit : ℕ → S → Outcome (Unit {0}) × S
  pub rollback : ℕ → S → Outcome (Unit {0}) × S
  pub prepare : Option ℕ → String → S → Outcome ℕ × S
  pub close_stmt : ℕ → S → S
  pub exec : ℕ → List Value → S → Outcome ExecResult × S
  pub query : ℕ → List Value → S → Outcome ResultSet × S
  pub close_rows : S → S

-- What a method on an object runs against: the object, which it changes, and the database
pub record Session (S : Type 0) : Type 0 where
  pub object : Object
  pub world : S

-- A hook may change the object, and use the database.
abbrev pub HookFunction : Type 0 → Type 0
HookFunction S = Schema → Act (Session S) (Unit {0})

pub record Orm (S : Type 0) : Type 0 where
  pub sql_gen : Generator
  pub schema : Schema
  pub raw_conn : Database S
  pub std : Std
  pub remove_nils : List Value → List Value  -- nils.RemoveNilsIfNeeded
  pub before_create_hooks : Map (HookFunction S)
  pub after_create_hooks : Map (HookFunction S)
  pub before_update_hooks : Map (HookFunction S)
  pub after_update_hooks : Map (HookFunction S)

module _ {S : Type 0} where
  abbrev pub make_empty_hook_map : Map (HookFunction S)
  make_empty_hook_map = []

  -- The ORM constructor: no hooks
  unfoldable pub new : Generator → Schema → Database S → Std → (List Value → List Value) → Orm S
  new gen s db std remove_nils = record {
    sql_gen = gen;
    schema = s;
    raw_conn = db;
    std = std;
    remove_nils = remove_nils;
    before_create_hooks = make_empty_hook_map;
    after_create_hooks = make_empty_hook_map;
    before_update_hooks = make_empty_hook_map;
    after_update_hooks = make_empty_hook_map;
  }

  -- `hookFunc, ok := hooks[o.s.GetTableName(obj.Type)]; if ok { return hookFunc(o.s, obj) }`
  unfoldable pub call_hook_if_needed : Orm S → Map (HookFunction S) → Act (Session S) (Unit {0})
  call_hook_if_needed o hooks st =
      elim (lookup (get_table_name o.schema st.object.object_type) hooks) [
        | none ↦ (ok tt, st)
        | some hook ↦ hook o.schema st
      ]

  abbrev pub call_before_create_hook_if_needed : Orm S → Act (Session S) (Unit {0})
  call_before_create_hook_if_needed o = call_hook_if_needed o o.before_create_hooks

  abbrev pub call_after_create_hook_if_needed : Orm S → Act (Session S) (Unit {0})
  call_after_create_hook_if_needed o = call_hook_if_needed o o.after_create_hooks

  abbrev pub call_before_update_hook_if_needed : Orm S → Act (Session S) (Unit {0})
  call_before_update_hook_if_needed o = call_hook_if_needed o o.before_update_hooks

  abbrev pub call_after_update_hook_if_needed : Orm S → Act (Session S) (Unit {0})
  call_after_update_hook_if_needed o = call_hook_if_needed o o.after_update_hooks

  abbrev pub get_schema : Orm S → Schema
  get_schema o = o.schema

  abbrev pub use_tracing : Orm S → Bool
  use_tracing o = o.sql_gen.tracing

  abbrev pub get_sql_generator : Orm S → Generator
  get_sql_generator o = o.sql_gen

  -- A database call of a method on an object
  abbrev pub on_world : {A : Type 0} → Act S A → Act (Session S) A
  on_world m st = let (r, w) = m st.world in (r, record st { world = w })

  -- `select { case <-ctx.Done(): return ctx.Err() default: }`
  unfoldable pub check_ctx : Orm S → Act S (Unit {0})
  check_ctx o w = elim (o.raw_conn.ctx_err w) [ none ↦ (ok tt, w) | some e ↦ (err e, w) ]

  -- stmtFromDbOrTx
  unfoldable pub stmt_from_db_or_tx : Orm S → Option ℕ → String → Act S ℕ
  stmt_from_db_or_tx o tx sql = o.raw_conn.prepare tx sql

  abbrev pub modify_object : (Object → Object) → Act (Session S) (Unit {0})
  modify_object f = modify (λ st. record st { object = f st.object })
