-- ===== src/Schema/Laws.antt =====
-- Aliases resolve alike in schema/schema.go, and what schema/validate.go accepts.
use dyndao.Base.{String, ◌≡◌, refl, ◌≢◌, ◌↔◌, none, some, [], ◌∷◌, All, arith, eq_iff}
use dyndao.Base.Map.{Map, lookup, entries}
use dyndao.Base.Outcome.{ok}
use dyndao.Schema.{
  Table, Schema, get_table_name, get_table, get_column_name, get_column, validate_table,
  validate_tables, validate,
}

-- GetTable finds the table under the name that GetTableName resolves to.
pub get_table-get_table_name :
    (s : Schema) (n : String) → get_table s n ≡ lookup (get_table_name s n) s.tables
unfolding get_table get_table_name
get_table-get_table_name s n = ground arith

-- GetColumn finds the column under the name that GetColumnName resolves to.
pub get_column-get_column_name :
    (t : Table) (n : String) → get_column t n ≡ lookup (get_column_name t n) (entries t.columns)
unfolding get_column get_column_name
get_column-get_column_name t n = ground arith

-- A table that is ready for statements: it has a name and at least one essential column.
abbrev pub IsReady : Table → Type 0
IsReady t = (t.name ≢ "") × (t.essential_columns ≢ none) × (t.essential_columns ≢ some [])

validate_table_iff : (t : Table) → (validate_table t ≡ ok tt) ↔ IsReady t
unfolding validate_table
validate_table_iff t = ground (arith, eq_iff t.name "")

validate_tables_iff : (ts : Map Table) → (validate_tables ts ≡ ok tt) ↔ All (λ e. IsReady e.1) ts
unfolding validate_tables
validate_tables_iff [] = (λ _. tt, λ _. refl)
validate_tables_iff ((k, t) ∷ ts) = (
  λ h. ground (arith, (validate_table_iff t).0, (validate_tables_iff ts).0),
  λ h. rw ((validate_table_iff t).1 h.0, validate_tables) ((validate_tables_iff ts).1 h.1),
)

-- Validate accepts a schema exactly when every table has a name and an essential column.
pub validate_iff : (s : Schema) → (validate s ≡ ok tt) ↔ All (λ e. IsReady e.1) s.tables
unfolding validate
validate_iff s = validate_tables_iff s.tables
