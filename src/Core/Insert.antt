-- ===== src/Core/Insert.antt =====
-- adapters/core/insert.go
pub mod Counts
pub mod Order
pub mod Bindable
pub mod Exactly
use dyndao.Base.{String, ◌<>◌, Bool, Option, none, some, List, [], ◌∷◌, join, ◌==◌, if◌then◌else◌}
use dyndao.Base.Map.{Map, lookup}
use dyndao.Base.Outcome.{Outcome, ok, err, panic, message, ◌>>=◌}
use dyndao.Value.{
  Value, nil, bool, string, int, int32, int64, uint64, float64, sql_value, sql_value_ptr,
  gjson_result, Std, format_uint, type_name,
}
use dyndao.Schema.{Column, Table, Schema, get_table, get_column_name, override_name}
use dyndao.SqlGen.{Generator}

-- A value to be bound: an error of RenderInsertValue becomes a panic.
or_panic : Outcome Value → Outcome Value
or_panic (ok b) = ok b
or_panic (err e) = panic "RenderInsertValue"
or_panic (panic p) = panic p

-- One round of the loop in `CoreBindingInsert`: the bind name and the argument of one value
insert_value : Std → Generator → Column → Value → Outcome (String × Value)
unfolding or_panic
insert_value s g f nil = ok (g.render_binding_value f, nil)
insert_value s g f (sql_value_ptr _ t) = ok (t, nil)
insert_value s g f (sql_value t) = ok (t, nil)
insert_value s g f v = do
  b ← or_panic (g.render_insert_value s f v)
  ok (g.render_binding_value f, b)

-- Bind names, column names and arguments
unfoldable pub core_binding_insert :
    Std
    → Generator
    → Table
    → Map Column
    → Map Value
    → Outcome (List String × List String × List Value)
unfolding insert_value
core_binding_insert s g t fields [] = ok ([], [], [])
core_binding_insert s g t fields ((k, v) ∷ rest) =
    let real_name = get_column_name t k in
    let others = core_binding_insert s g t fields rest in
    elim (lookup real_name fields) [
      | none ↦ panic ("coreBindingInsert: Unknown field for key: " <> k)
      | some f ↦ do
        (name, arg) ← insert_value s g f v
        (names, cols, args) ← others
        ok (name ∷ names, real_name ∷ cols, arg ∷ args)
    ]

-- The last two steps of `BindingInsert`, given the lists
abbrev pub insert_statement :
    (List Value → List Value)
    → Generator
    → Table
    → String
    → List String × List String × List Value
    → String × List Value
insert_statement remove_nils g t table_name (names, cols, args) =
    (g.binding_insert_sql t table_name cols names t.primary, remove_nils args)

-- `remove_nils` is nils.RemoveNilsIfNeeded, which is not part of the repository.
unfoldable pub binding_insert :
    (List Value → List Value)
    → Std
    → Generator
    → Schema
    → String
    → Option (Map Value)
    → Outcome (String × List Value)
unfolding core_binding_insert
binding_insert remove_nils s g sch table none =
    if table == ""
    then err (message "BindingInsert: Empty table name")
    else err (message "BindingInsert: Empty data passed")
binding_insert remove_nils s g sch table (some entries) =
    if table == ""
    then err (message "BindingInsert: Empty table name")
    else elim (get_table sch table) [
      | none ↦ err (message ("BindingInsert: Table map unavailable for table " <> table))
      | some t ↦ elim t.columns [
        | none ↦ err (message ("BindingInsert: Column map unavailable for table " <> table))
        | some fields ↦ do
          lists ← core_binding_insert s g t fields entries
          ok (insert_statement remove_nils g t (override_name t.name table) lists)
      ]
    ]

unfoldable pub binding_insert_sql : Table → String → List String → List String → String → String
binding_insert_sql t table_name cols names identity_col =
    "INSERT INTO " <> table_name <> " (" <> join cols "," <> ") VALUES (" <> join names "," <> ")"

unfoldable pub render_insert_value : Std → Column → Value → Outcome Value
render_insert_value s f (string t) = ok (string t)
render_insert_value s f (int32 n) = ok (string (s.rune_string n))
render_insert_value s f (int n) = ok (int n)
render_insert_value s f (int64 n) = ok (int64 n)
render_insert_value s f (uint64 n) = ok (string (format_uint n))
render_insert_value s f (float64 x) =
    ok (if f.is_number then int64 (s.float_to_int x) else string (s.format_float x))
render_insert_value s f (sql_value_ptr _ t) = ok (string t)
render_insert_value s f (sql_value t) = ok (string t)
render_insert_value s f (gjson_result _) =
    panic "gjson.Result is not currently supported for renderInsertValue"
render_insert_value s f v =
    err (
      message ("renderInsertValue: unknown type " <> type_name v <> " for the value of " <> f.name))
