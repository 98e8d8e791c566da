-- ===== src/Basic.antt =====
-- orm/getdb.go and examples/basic/main.go, which creates and drops the tables of a schema. The driver's
-- `sql.Open`, the environment and the schema are parameters.
pub mod Runs
use dyndao.Base.{String, Option, none, some, List, ◌==◌, if◌then◌else◌}
use dyndao.Base.Outcome
use dyndao.Base.Outcome.{Outcome, ok, err, panic}
use dyndao.Value.{Value, Std}
use dyndao.Schema.{Schema}
use dyndao.SqlGen.Vtable.{Vtable, panic_if_invalid, resolve}
use dyndao.Core.New
use dyndao.Adapters.Sqlite.New as SqliteNew
use dyndao.Orm as Orm
use dyndao.Orm.{Orm, Act, pure, crash, lift, or_crash, proceed, ◌>>=◌, ◌>>◌, Database}
use dyndao.Orm.Tree.{error_text}
use dyndao.Orm.Tables.{create_tables, drop_tables}

-- `*sql.DB`
pub record Connection (S : Type 0) : Type 0 where
  pub database : Database S
  pub close : Act S (Unit {0})

unfoldable pub get_db :
    {S : Type 0}
    → (String → String → Act S (Option (Connection S)))
    → String
    → String
    → Act S (Option (Connection S))
get_db open_db driver dsn = open_db driver dsn >>= λ db. pure db

abbrev pub default_driver : String
default_driver = "sqlite3"

abbrev pub default_dsn : String
default_dsn = "file::memory:?mode=memory&cache=shared"

abbrev pub fatal_if : {A : Type 0} → Outcome A → Outcome A
fatal_if (ok a) = ok a
fatal_if (err e) = panic (error_text e)
fatal_if (panic p) = panic p

abbrev pub get_driver : String
get_driver = default_driver

-- `env` is the environment variable DSN.
abbrev pub get_dsn : String → String
get_dsn env = if env == "" then default_dsn else env

-- The generator of SQLite, checked. `db_trace` is the environment variable DB_TRACE.
unfoldable pub get_sql_gen : (List Value → List Value) → String → Outcome Vtable
unfolding SqliteNew.new New.new panic_if_invalid
get_sql_gen remove_nils db_trace =
    let sql_gen = SqliteNew.new (New.new remove_nils db_trace) in
    Outcome.◌>>◌ (panic_if_invalid sql_gen) (ok sql_gen)

module _ {S : Type 0} where
  -- A call whose error is fatal
  abbrev pub fatal : {A : Type 0} → Act S A → Act S A
  fatal m w = let (r, w') = m w in (fatal_if r, w')

  -- The deferred close, which runs however the rest ends, and may panic itself
  unfoldable pub closing : Act S (Unit {0}) → Act S (Unit {0}) → Act S (Unit {0})
  closing close m w =
      let (r, after) = m w in
      let (closed, last) = close after in
      (elim (fatal_if closed) [ ok _ ↦ r | err e ↦ err e | panic p ↦ panic p ], last)

  -- What is done with the ORM
  abbrev pub both : Orm S → Act S (Unit {0})
  both orm = do fatal (create_tables orm); fatal (drop_tables orm)

  module _ (s : Std) (remove_nils : List Value → List Value) (db_trace : String)
      (sch : Schema) where
    unfoldable pub create_and_drop : Database S → Act S (Unit {0})
    unfolding get_sql_gen resolve Orm.new
    create_and_drop db = do
      v ← lift (get_sql_gen remove_nils db_trace)
      g ← or_crash (resolve v)
      let orm = Orm.new g sch db s remove_nils
      both orm

    unfoldable pub main :
        (String → String → Act S (Option (Connection S))) → String → Act S (Unit {0})
    unfolding get_db closing create_and_drop
    main open_db env = do
      db ← fatal (get_db open_db get_driver (get_dsn env))
      elim db [
        | none ↦ crash "empty database connection received"
        | some conn ↦ closing conn.close (create_and_drop conn.database)
      ]
