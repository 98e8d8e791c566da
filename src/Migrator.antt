-- ===== src/Migrator.antt =====
-- examples/migrator/main.go: the columns of an Oracle schema get MySQL types, and every table is
-- printed as a DROP and a CREATE statement. The schema is a parameter.
pub mod Types
pub mod Prints
use dyndao.Base.{String, ◌<>◌, Option, none, some, List, [], ◌∷◌, ◌==◌, if◌then◌else◌, map}
use dyndao.Base.Map.{Map, keys}
use dyndao.Base.Outcome.{Outcome, ok, err, panic, ◌>>=◌, ◌>>◌}
use dyndao.Base.Int.{pos}
use dyndao.Value.{Value, Std}
use dyndao.Schema.{Column, Table, Schema}
use dyndao.SqlGen.{Generator}
use dyndao.SqlGen.Vtable.{Vtable, panic_if_invalid, resolve}
use dyndao.Core.New
use dyndao.Adapters.Mysql.New as MysqlNew
use dyndao.Core.Statements.{create_table}

-- The four tests, one after the other: each one sees what the test before it left.
abbrev retype : Std → String → String → Column → Column
retype s from to f = if s.to_upper f.db_type == from then record f { db_type = to } else f

abbrev retype_time : Column → Column
retype_time f =
    if f.db_type == "TIMESTAMP" then record f { db_type = "DATETIME"; length = pos 0 } else f

abbrev retype_lob : Column → Column
retype_lob f = if f.db_type == "CLOB" then record f { db_type = "TEXT" } else f

unfoldable pub translate_column : Std → Column → Column
translate_column s f =
    retype_lob (retype_time (retype s "NUMBER" "INTEGER" (retype s "VARCHAR2" "VARCHAR" f)))

abbrev translate_columns : Std → Option (Map Column) → Option (Map Column)
translate_columns s none = none
translate_columns s (some cols) = some (map (λ (k, f). (k, translate_column s f)) cols)

abbrev translate_table : Std → Table → Table
translate_table s t = record t { columns = translate_columns s t.columns }

unfoldable pub translate : Std → Schema → Schema
translate s sch = record sch { tables = map (λ (k, t). (k, translate_table s t)) sch.tables }

-- The second loop: what it prints, line by line
print_tables : Std → Generator → List String → Schema → Outcome (List String)
print_tables s g [] sch = ok []
print_tables s g (table_name ∷ rest) sch = elim (create_table s g sch table_name) [
  | err e ↦ panic "CreateTable"
  | panic p ↦ panic p
  | ok (text, sch') ↦ do
    lines ← print_tables s g rest sch'
    ok ((g.drop_table table_name <> ";") ∷ (text <> ";") ∷ lines)
]

-- The generator of MySQL, checked. `db_trace` is the environment variable DB_TRACE.
unfoldable pub get_sql_gen : (List Value → List Value) → String → Outcome Vtable
unfolding MysqlNew.new New.new panic_if_invalid
get_sql_gen remove_nils db_trace = do
  let sql_gen = MysqlNew.new (New.new remove_nils db_trace)
  panic_if_invalid sql_gen
  ok sql_gen

unfoldable pub main : Std → (List Value → List Value) → String → Schema → Outcome (List String)
unfolding translate print_tables get_sql_gen resolve
main s remove_nils db_trace sch = do
  let sch' = translate s sch
  sqlg ← get_sql_gen remove_nils db_trace
  elim (resolve sqlg) [
    | none ↦ panic "nil pointer dereference"
    | some g ↦ print_tables s g (keys sch'.tables) sch'
  ]
