-- ===== src/Adapters/Oracle.antt =====
-- adapters/oracle: insert.go, render_where.go and create_table.go; the children have types.go and
-- setter.go.
pub mod Types
pub mod New
pub mod Columns
pub mod Lob
use dyndao.Base.{ℕ, String, ◌<>◌, Bool, List, [], ◌∷◌, join, ◌==◌, if◌then◌else◌}
use dyndao.Base.Outcome.{Outcome, ok, err, panic, message}
use dyndao.Value.{
  Value, string, int, int32, int64, uint64, float64, sql_value, sql_value_ptr, gjson_result, named,
  Std, format_uint, type_name,
}
use dyndao.Schema.{Column, Table}
use dyndao.Adapters.Common.{with_length}

unfoldable pub binding_insert_sql : Table → String → List String → List String → String → String
binding_insert_sql t table_name cols names identity_col =
    let plain =
      "INSERT INTO "
      <> table_name
      <> " ("
      <> join cols ","
      <> ") VALUES ("
      <> join names ","
      <> ")" in
    if t.caller_supplies_pk
    then plain
    else plain <> " RETURNING " <> identity_col <> " /*LASTINSERTID*/ INTO :" <> identity_col

unfoldable pub render_insert_value : Std → Column → Value → Outcome Value
render_insert_value s f (string t) = ok (named f.name (string t))
render_insert_value s f (int32 n) = ok (named f.name (string (s.rune_string n)))
render_insert_value s f (int n) = ok (named f.name (int n))
render_insert_value s f (int64 n) = ok (named f.name (int64 n))
render_insert_value s f (uint64 n) = ok (named f.name (string (format_uint n)))
render_insert_value s f (float64 x) =
    ok (named f.name (if f.is_number then int64 (s.float_to_int x) else string (s.format_float x)))
render_insert_value s f (sql_value_ptr _ t) = ok (named f.name (string t))
render_insert_value s f (sql_value t) = ok (named f.name (string t))
render_insert_value s f (gjson_result _) =
    panic "gjson.Result is not currently supported for renderInsertValue"
render_insert_value s f v =
    err (
      message ("renderInsertValue: unknown type " <> type_name v <> " for the value of " <> f.name))

unfoldable pub render_binding_value : Column → String
render_binding_value f = ":" <> f.name

unfoldable pub render_binding_value_with_int : Column → ℕ → String
render_binding_value_with_int f i = ":" <> f.name <> format_uint i

unfoldable pub map_type : String → String
map_type s =
    if s == "integer"
    then "NUMBER"
    else if s == "text"
    then "CLOB"
    else if s == "varchar"
    then "VARCHAR2"
    else s

unfoldable pub render_create_column : Std → Column → Outcome (String × Column)
render_create_column s f =
    let identity : String = if f.is_identity then "PRIMARY KEY" else "" in
    let not_null : String = if f.allow_null then "NULL" else "NOT NULL" in
    let data_type : String = with_length f (map_type f.db_type) in
    let unique : String = if f.is_unique then "UNIQUE" else "" in
    if data_type == ""
    then panic ("Empty dataType in renderCreateColumn for " <> f.name)
    else if f.is_identity
    then ok (join (f.name ∷ data_type ∷ "GENERATED ALWAYS AS IDENTITY" ∷ []) " ", f)
    else ok (join (f.name ∷ data_type ∷ identity ∷ not_null ∷ unique ∷ []) " ", f)
