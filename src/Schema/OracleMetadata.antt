-- ===== src/Schema/OracleMetadata.antt =====
-- schema/parser/oracle/metadata.go: a schema from the Oracle catalogue. The queries are parameters,
-- functions of their text and arguments: the first one, and a DESCRIBE statement.
pub mod Empty
use dyndao.Base.{String, ◌<>◌, Option, none, some, List, [], ◌∷◌, ◌==◌}
use dyndao.Base.Map.{lookup, insert, entries, keys}
use dyndao.Base.Outcome.{Error, Outcome, ok, err, panic, ◌>>=◌}
use dyndao.Value.{NullString}
use dyndao.Schema.{Column, Schema, default_schema, default_column}
use dyndao.Schema.Infoschema.{Rows, finished, read_names}
use dyndao.Schema.Infoschema as Infoschema

-- The variables that `ParseTables` scans a row into
pub record ColumnRow : Type 0 where
  pub col_name : NullString
  pub is_nullable : String
  pub data_type : String

unfoldable pub get_table_names_sql : String → String
get_table_names_sql db =
    "SELECT DISTINCT(TABLE_NAME) FROM ALL_TABLES WHERE TABLESPACE_NAME=:TBN0 AND STATUS = :STAT1"

-- The same loop as that of the other parser. The first query has two arguments.
unfoldable pub parse_schema :
    (String → String → String → Outcome (Rows String)) → String → Outcome Schema
unfolding default_schema get_table_names_sql
parse_schema query db = do
  rows ← query (get_table_names_sql db) db "VALID"
  read_names rows.scans rows.end_err default_schema

unfoldable pub get_column_meta_sql : String → String → String
get_column_meta_sql db tbl_name = "DESCRIBE '" <> db <> "'." <> tbl_name

unfoldable pub row_column : ColumnRow → Column
unfolding default_column
row_column row = record default_column {
  name = row.col_name.text;
  db_type = row.data_type;
  allow_null = row.is_nullable == "NULL";
}

unfoldable pub set_table_col : String → ColumnRow → Schema → Outcome Schema
unfolding row_column
set_table_col tbl_name row sch = elim (lookup tbl_name sch.tables) [
  | none ↦ panic "nil pointer dereference"
  | some tbl ↦
      let columns = insert row.col_name.text (row_column row) (entries tbl.columns) in
      ok (record sch {
        tables =
            insert tbl_name (record tbl { name = tbl_name; columns = some columns }) sch.tables;
      })
]

-- The rows of one DESCRIBE
read_columns : String → List (Outcome ColumnRow) → Option Error → Schema → Outcome Schema
unfolding set_table_col
read_columns tbl_name [] end_err sch = finished end_err sch
read_columns tbl_name (scan ∷ scans) end_err sch = do
  row ← scan
  sch' ← set_table_col tbl_name row sch
  read_columns tbl_name scans end_err sch'

-- The same loop as that of the other parser
unfoldable pub set_default_essential_columns : Schema → Schema
unfolding Infoschema.set_default_essential_columns
set_default_essential_columns sch = Infoschema.set_default_essential_columns sch

module _ (describe : String → Outcome (Rows ColumnRow)) (db : String) where
  -- `for _, tbl := range sch.Tables`, by the tables' keys
  each_table : List String → Schema → Outcome Schema
  unfolding read_columns get_column_meta_sql
  each_table [] sch = ok sch
  each_table (k ∷ ks) sch = elim (lookup k sch.tables) [
    | none ↦ each_table ks sch
    | some tbl ↦ do
      rows ← describe (get_column_meta_sql db tbl.name)
      sch' ← read_columns tbl.name rows.scans rows.end_err sch
      each_table ks sch'
  ]

  unfoldable pub parse_tables : Schema → Outcome Schema
  unfolding each_table
  parse_tables sch = each_table (keys sch.tables) sch

  unfoldable pub load_schema : (String → String → String → Outcome (Rows String)) → Outcome Schema
  unfolding parse_schema parse_tables set_default_essential_columns
  load_schema query_names = do
    sch ← parse_schema query_names db
    parsed ← parse_tables sch
    ok (set_default_essential_columns parsed)
