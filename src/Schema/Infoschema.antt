-- ===== src/Schema/Infoschema.antt =====
-- schema/parser/infoschema/infoschema.go: a schema from the rows of information_schema. A query is
-- a parameter, a function of its text; a result is one `Scan` for each row, and what `Err` says at the end.
pub mod Names
use dyndao.Base.{String, ◌<>◌, Bool, ◌&&◌, Option, none, some, List, [], ◌∷◌, map, ◌==◌}
use dyndao.Base.Map.{Map, lookup, insert, entries}
use dyndao.Base.Outcome.{Error, Outcome, ok, err, panic, ◌>>=◌}
use dyndao.Value.{NullString}
use dyndao.Schema.{Column, Table, Schema, default_schema, default_table, default_column}

-- The variables that `ParseTables` scans a row into
pub record ColumnRow : Type 0 where
  pub tbl_name : String
  pub col_name : NullString
  pub data_type : String
  pub column_default : NullString
  pub is_nullable : String
  pub column_key : String
  pub extra : String

pub record Rows (A : Type 0) : Type 0 where
  pub scans : List (Outcome A)
  pub end_err : Option Error

-- What a loop over the rows returns after the last of them
abbrev pub finished : {A : Type 0} → Option Error → A → Outcome A
finished none a = ok a
finished (some e) a = err e

unfoldable pub read_names : List (Outcome String) → Option Error → Schema → Outcome Schema
unfolding default_table
read_names [] end_err sch = finished end_err sch
read_names (scan ∷ scans) end_err sch = do
  tbl_name ← scan
  read_names scans end_err (record sch { tables = insert tbl_name default_table sch.tables })

unfoldable pub get_table_names_sql : String → String
get_table_names_sql db =
    "\nSELECT DISTINCT TABLE_NAME \nFROM INFORMATION_SCHEMA.COLUMNS\nWHERE TABLE_SCHEMA='" <> db
    <> "'\n\t"

-- With an error of `Err` the source returns the schema too, which its only caller drops.
unfoldable pub parse_schema : (String → Outcome (Rows String)) → String → Outcome Schema
unfolding read_names default_schema get_table_names_sql
parse_schema query db = do
  rows ← query (get_table_names_sql db)
  read_names rows.scans rows.end_err default_schema

unfoldable pub get_column_meta_sql : String → String
get_column_meta_sql db =
    "\nSELECT TABLE_NAME, COLUMN_NAME, DATA_TYPE, COLUMN_DEFAULT, IS_NULLABLE, COLUMN_KEY, EXTRA\nFROM INFORMATION_SCHEMA.COLUMNS\nWHERE TABLE_SCHEMA='"
    <> db <> "'\nORDER BY TABLE_NAME\n\t"

unfoldable pub row_column : ColumnRow → Column
unfolding default_column
row_column row = record default_column {
  name = row.col_name.text;
  db_type = row.data_type;
  default_value = row.column_default.text;
  allow_null = row.is_nullable == "YES";
  is_identity = (row.extra == "auto_increment") && (row.column_key == "PRI");
}

unfoldable pub set_table_col : ColumnRow → Schema → Outcome Schema
unfolding row_column
set_table_col row sch = elim (lookup row.tbl_name sch.tables) [
  | none ↦ panic "nil pointer dereference"
  | some tbl ↦
      let columns = insert row.col_name.text (row_column row) (entries tbl.columns) in
      ok (record sch {
        tables =
            insert row.tbl_name (record tbl { name = row.tbl_name; columns = some columns })
              sch.tables;
      })
]

read_columns : List (Outcome ColumnRow) → Option Error → Schema → Outcome Schema
unfolding set_table_col
read_columns [] end_err sch = finished end_err sch
read_columns (scan ∷ scans) end_err sch = do
  row ← scan
  sch' ← set_table_col row sch
  read_columns scans end_err sch'

unfoldable pub parse_tables : (String → Outcome (Rows ColumnRow)) → String → Schema → Outcome Schema
unfolding read_columns get_column_meta_sql
parse_tables query db sch = do
  rows ← query (get_column_meta_sql db)
  read_columns rows.scans rows.end_err sch

abbrev pub with_essentials : Table → Table
with_essentials tbl = record tbl {
  essential_columns = some (map (λ e. e.1.name) (entries tbl.columns));
}

unfoldable pub set_default_essential_columns : Schema → Schema
set_default_essential_columns sch = record sch {
  tables = map (λ (k, tbl). (k, with_essentials tbl)) sch.tables;
}

unfoldable pub load_schema :
    (String → Outcome (Rows String)) → (String → Outcome (Rows ColumnRow)) → String → Outcome Schema
unfolding parse_schema parse_tables set_default_essential_columns
load_schema query_names query_columns db_name = do
  sch ← parse_schema query_names db_name
  parsed ← parse_tables query_columns db_name sch
  ok (set_default_essential_columns parsed)
