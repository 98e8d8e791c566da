-- ===== src/Orm/Tables.antt =====
-- orm/tables.go. A renderer may change the columns that it is given (MySQL), so the schema is
-- handed on from one CREATE TABLE to the next.
pub mod Succeeds
use dyndao.Base.{String, ◌<>◌, none, List, [], ◌∷◌}
use dyndao.Base.Map.{keys}
use dyndao.Schema.{Schema}
use dyndao.Core.Statements.{create_table}
use dyndao.Orm.{Act, pure, lift, wrapped, deferred, ◌>>=◌, ◌>>◌, ExecResult, Orm}

module _ {S : Type 0} (o : Orm S) where
  unfoldable pub prepare_and_exec_sql : String → Act S ExecResult
  prepare_and_exec_sql sql = do
    stmt ←
        wrapped ("prepareAndExecSQL/PrepareContext (" <> sql <> ")") (o.raw_conn.prepare none sql)
    deferred (o.raw_conn.close_stmt stmt)
        (wrapped ("prepareAndExecSQL/ExecContext (" <> sql <> ")") (o.raw_conn.exec stmt []))

  unfoldable pub create : Schema → String → Act S Schema
  create sch name = do
    (sql, sch') ← lift (create_table o.std o.sql_gen sch name)
    wrapped "CreateTable" (prepare_and_exec_sql sql)
    pure sch'

  unfoldable pub drop : String → Act S (Unit {0})
  drop name = do wrapped "DropTable" (prepare_and_exec_sql (o.sql_gen.drop_table name)); pure tt

  create_each : Schema → List String → Act S Schema
  create_each sch [] = pure sch
  create_each sch (name ∷ names) = do sch' ← create sch name; create_each sch' names

  drop_each : List String → Act S (Unit {0})
  drop_each [] = pure tt
  drop_each (name ∷ names) = do drop name; drop_each names

  unfoldable pub create_tables : Act S Schema
  unfolding create_each
  create_tables = create_each o.schema (keys o.schema.tables)

  unfoldable pub drop_tables : Act S (Unit {0})
  unfolding drop_each
  drop_tables = drop_each (keys o.schema.tables)
