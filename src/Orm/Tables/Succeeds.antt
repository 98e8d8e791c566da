-- ===== src/Orm/Tables/Succeeds.antt =====
-- What CreateTables and DropTables of orm/tables.go ask of the database, where it fails no call.
use dyndao.Base.{
  ℕ, suc, length, String, ◌≡◌, refl, ap, true, Option, none, List, [], ◌∷◌, map, arith,
}
use dyndao.Base.Map.{keys}
use dyndao.Base.Outcome.{ok, err, panic, is_ok}
use dyndao.Value.{Value, Std}
use dyndao.Schema.{Column, Schema}
use dyndao.SqlGen.{Generator}
use dyndao.Core.Statements.{create_table}
use dyndao.Core.Creates.{HasAll, Creates-eq, create_table-Creates, keys-found}
use dyndao.Orm.{Database, Orm}
use dyndao.Orm.Write.Succeeds.{NeverFails}
use dyndao.Orm.Tables.{
  prepare_and_exec_sql, create, drop, create_each, drop_each, create_tables, drop_tables,
}

-- A database that logs what is prepared, the last statement first
pub record Logs {S : Type 0} (db : Database S) (logged : S → List String) : Type 0 where
  pub log_prepare :
      (tx : Option ℕ) (sql : String) (w : S) → logged (db.prepare tx sql w).1 ≡ sql ∷ logged w
  pub log_exec : (stmt : ℕ) (args : List Value) (w : S) → logged (db.exec stmt args w).1 ≡ logged w
  pub log_close : (stmt : ℕ) (w : S) → logged (db.close_stmt stmt w) ≡ logged w

-- The log after more statements
abbrev pub after_log : List String → List String → List String
after_log [] log = log
after_log (sql ∷ sqls) log = after_log sqls (sql ∷ log)

-- The texts of CreateTable, one table after the other
abbrev pub create_texts : Std → Generator → Schema → List String → List String
create_texts s g sch [] = []
create_texts s g sch (name ∷ names) = elim (create_table s g sch name) [
  | ok (sql, sch') ↦ sql ∷ create_texts s g sch' names
  | err e ↦ []
  | panic p ↦ []
]

module _ {S : Type 0} (o : Orm S) (fine : NeverFails o.raw_conn) (logged : S → List String)
    (logs : Logs o.raw_conn logged) where
  prepare_and_exec-succeeds :
      (sql : String) (w : S)
      → (is_ok (prepare_and_exec_sql o sql w).0 ≡ true)
        × (logged (prepare_and_exec_sql o sql w).1 ≡ sql ∷ logged w)
  unfolding prepare_and_exec_sql
  prepare_and_exec-succeeds sql w = (
    grind (arith, fine.prepares none sql w, fine.executes),
    grind (
      arith,
      fine.prepares none sql w,
      fine.executes,
      logs.log_prepare none sql w,
      logs.log_exec,
      logs.log_close,
    ),
  )

  drop_each-succeeds :
      (names : List String) (w : S)
      → (is_ok (drop_each o names w).0 ≡ true)
        × (logged (drop_each o names w).1 ≡ after_log (map o.sql_gen.drop_table names) (logged w))
  unfolding drop_each drop
  drop_each-succeeds [] w = (refl, refl)
  drop_each-succeeds (name ∷ names) w =
      let once = prepare_and_exec-succeeds (o.sql_gen.drop_table name) w in
      grind (arith, once, drop_each-succeeds names)

  module _ (renders : (f : Column) → is_ok (o.sql_gen.render_create_column o.std f) ≡ true) where
    create_each-succeeds :
        (names : List String) (sch : Schema) (w : S)
        → HasAll names sch
        → (is_ok (create_each o sch names w).0 ≡ true)
          × (logged (create_each o sch names w).1
              ≡ after_log (create_texts o.std o.sql_gen sch names) (logged w))
    unfolding create_each create
    create_each-succeeds [] sch w has = (refl, refl)
    create_each-succeeds (name ∷ names) sch w (here, has) =
        let (sql, sch', created, keeps) =
          Creates-eq sch (create_table o.std o.sql_gen sch name)
            (create_table-Creates o.std o.sql_gen renders sch name here) in
        let once = prepare_and_exec-succeeds sql w in
        let others : (w' : S)
            → (is_ok (create_each o sch' names w').0 ≡ true)
              × (logged (create_each o sch' names w').1
                  ≡ after_log (create_texts o.std o.sql_gen sch' names) (logged w')) =
          λ w'. create_each-succeeds names sch' w' (keeps names has) in
        grind (arith, created, once, others)

    length-create_texts :
        (names : List String) (sch : Schema)
        → HasAll names sch
        → length (create_texts o.std o.sql_gen sch names) ≡ length names
    length-create_texts [] sch has = refl
    length-create_texts (name ∷ names) sch (here, has) =
        let (sql, sch', created, keeps) =
          Creates-eq sch (create_table o.std o.sql_gen sch name)
            (create_table-Creates o.std o.sql_gen renders sch name here) in
        rw (created, create_texts) (ap suc (length-create_texts names sch' (keeps names has)))

    -- On a database that fails no call and logs what is prepared, with a renderer of columns that does
    -- not fail: CreateTables and DropTables succeed on every schema, and prepare one CREATE TABLE and one
    -- DROP TABLE for each table, in the order of the tables and nothing else.
    pub tables_succeed :
        (w : S)
        → let names = keys o.schema.tables in
          (is_ok (create_tables o w).0 ≡ true)
          × (length (create_texts o.std o.sql_gen o.schema names) ≡ length names)
          × (logged (create_tables o w).1
              ≡ after_log (create_texts o.std o.sql_gen o.schema names) (logged w))
          × (is_ok (drop_tables o w).0 ≡ true)
          × (logged (drop_tables o w).1 ≡ after_log (map o.sql_gen.drop_table names) (logged w))
    unfolding create_tables drop_tables
    tables_succeed w =
        let names = keys o.schema.tables in
        let created = create_each-succeeds names o.schema w (keys-found o.schema.tables) in
        let dropped = drop_each-succeeds names w in
        (
          created.0,
          length-create_texts names o.schema (keys-found o.schema.tables),
          created.1,
          dropped.0,
          dropped.1,
        )
