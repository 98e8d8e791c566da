-- ===== src/Basic/Runs.antt =====
-- examples/basic/main.go runs to its end.
use dyndao.Base.{String, ◌≡◌, refl, true, Option, some, List, map, arith}
use dyndao.Base.Map.{keys}
use dyndao.Base.Outcome.{Outcome, ok, is_ok}
use dyndao.Value.{Value, Std}
use dyndao.Schema.{Column, Schema}
use dyndao.SqlGen.{Generator}
use dyndao.SqlGen.Vtable.{Vtable, resolve}
use dyndao.Adapters.Sqlite.{render_create_column}
use dyndao.Orm as Orm
use dyndao.Orm.{Act, Orm, Database, proceed}
use dyndao.Orm.Tables.{create_tables}
use dyndao.Orm.Tables.Succeeds.{Logs, after_log, create_texts, tables_succeed}
use dyndao.Orm.Write.Succeeds.{NeverFails}
use dyndao.Basic.{
  Connection, get_db, get_driver, get_dsn, get_sql_gen, closing, create_and_drop, both, main,
}

module _ {S : Type 0} (orm : Orm S) (logged : S → List String) where
  abbrev names : List String
  names = keys orm.schema.tables

  -- It succeeded, and its CREATE TABLE and DROP TABLE statements are what was logged.
  abbrev pub BothLogged : S → Outcome (Unit {0}) × S → Type 0
  BothLogged w ran =
      (is_ok ran.0 ≡ true)
      × (logged ran.1
          ≡ after_log (map orm.sql_gen.drop_table names)
              (after_log (create_texts orm.std orm.sql_gen orm.schema names) (logged w)))

  both-BothLogged :
      NeverFails orm.raw_conn
      → Logs orm.raw_conn logged
      → ((f : Column) → is_ok (orm.sql_gen.render_create_column orm.std f) ≡ true)
      → (w : S) → BothLogged w (both orm w)
  both-BothLogged fine logs renders w =
      let first = tables_succeed orm fine logged logs renders w in
      let second = tables_succeed orm fine logged logs renders (create_tables orm w).1 in
      grind (arith, first, second)

module _ {S : Type 0} (s : Std) (remove_nils : List Value → List Value) (db_trace : String)
    (sch : Schema) where
  -- However the work ends, the connection is closed after it.
  main_closes :
      (open_db : String → String → Act S (Option (Connection S))) (env : String)
      (conn : Connection S) (w opened : S)
      → open_db get_driver (get_dsn env) w ≡ (ok (some conn), opened)
      → (main s remove_nils db_trace sch open_db env w).1
        ≡ (conn.close (create_and_drop s remove_nils db_trace sch conn.database opened).1).1
  unfolding main get_db closing
  main_closes open_db env conn w opened opens = rw opens refl

  create_and_drop-BothLogged :
      (db : Database S) (logged : S → List String) (w : S)
      → NeverFails db
      → Logs db logged
      → (v : Vtable) × (g : Generator) × (get_sql_gen remove_nils db_trace ≡ ok v)
        × (resolve v ≡ some g)
        × BothLogged
            (Orm.new g sch db s remove_nils)
            logged
            w
            (create_and_drop s remove_nils db_trace sch db w)
  unfolding create_and_drop get_sql_gen resolve Orm.new render_create_column
  create_and_drop-BothLogged db logged w fine logs = (
    _,
    _,
    refl,
    refl,
    both-BothLogged (Orm.new _ sch db s remove_nils) logged fine logs (λ f. refl) w,
  )

  -- What the program left open and what it asked for: its own end, and the work before the close
  abbrev pub Runs : Connection S → (S → List String) → S → Outcome (Unit {0}) × S → Type 0
  Runs conn logged opened ran =
      (is_ok ran.0 ≡ true)
      × (v : Vtable) × (g : Generator) × (get_sql_gen remove_nils db_trace ≡ ok v)
      × (resolve v ≡ some g)
      × (worked : Outcome (Unit {0}) × S) × BothLogged (Orm.new g sch conn.database s remove_nils)
          logged opened worked
      × (ran.1 ≡ (conn.close worked.1).1)

  -- On a connection that opens, whose calls do not fail and which logs what is prepared: the program
  -- returns without a panic, for every schema. With the generator of SQLite it prepares one CREATE TABLE
  -- for each table and then one DROP TABLE for each, and closes the connection last.
  pub main-Runs :
      (open_db : String → String → Act S (Option (Connection S))) (env : String)
      (conn : Connection S) (logged : S → List String) (w opened : S)
      → open_db get_driver (get_dsn env) w ≡ (ok (some conn), opened)
      → NeverFails conn.database
      → Logs conn.database logged
      → ((w' : S) → is_ok (conn.close w').0 ≡ true)
      → Runs conn logged opened (main s remove_nils db_trace sch open_db env w)
  unfolding main get_db closing
  main-Runs open_db env conn logged w opened opens fine logs closes =
      let (v, g, checked, resolved, worked) =
        create_and_drop-BothLogged conn.database logged opened fine logs in
      let ran = create_and_drop s remove_nils db_trace sch conn.database opened in
      (
        rw opens (grind (arith, worked, closes)),
        v,
        g,
        checked,
        resolved,
        ran,
        worked,
        main_closes open_db env conn w opened opens,
      )
