-- ===== src/Schema/Infoschema/Names.antt =====
-- The names in a schema that infoschema.go loads.
use dyndao.Base.{
  String, Option, none, some, List, [], ◌∷◌, map, All, ◌≡◌, refl, ap, Option-cases, inl, inr,
}
use dyndao.Base.Map.{Map, lookup, insert, entries, keys}
use dyndao.Base.Outcome.{Error, Outcome, ok, ◌>>=◌, OnOk, OnOk-each, OnOk-then}
use dyndao.Base.Entries.{All-insert, lookup-All}
use dyndao.Schema.{Column, Table, Schema, default_table, default_schema}
use dyndao.Schema.Infoschema.{
  ColumnRow, Rows, read_names, parse_schema, row_column, set_table_col, read_columns, parse_tables,
  with_essentials, set_default_essential_columns, load_schema,
}

-- Every column stands under its own name.
abbrev pub IsNamed : Table → Type 0
IsNamed t = All (λ e. e.1.name ≡ e.0) (entries t.columns)

abbrev Named : Schema → Type 0
Named sch = All (λ e. IsNamed e.1) sch.tables

abbrev AllNamed : Outcome Schema → Type 0
AllNamed = OnOk Named

read_names-AllNamed :
    (scans : List (Outcome String)) (end_err : Option Error) (sch : Schema)
    → AllNamed (ok sch)
    → AllNamed (read_names scans end_err sch)
unfolding read_names default_table
read_names-AllNamed [] none sch h = h
read_names-AllNamed [] (some e) sch h = tt
read_names-AllNamed (scan ∷ scans) end_err sch h = OnOk-each Named scan _ λ name.
    read_names-AllNamed scans end_err (record sch { tables = insert name default_table sch.tables })
      (All-insert (λ e. IsNamed e.1) name default_table sch.tables tt h)

set_table_col-AllNamed :
    (row : ColumnRow) (sch : Schema) → AllNamed (ok sch) → AllNamed (set_table_col row sch)
unfolding set_table_col row_column
set_table_col-AllNamed row sch h = elim (Option-cases (lookup row.tbl_name sch.tables)) [
  | inl missing ↦ rw (missing, set_table_col) tt
  | inr (t, found) ↦
      let named : IsNamed t = lookup-All IsNamed row.tbl_name t sch.tables h found in
      rw (found, set_table_col)
        (All-insert (λ e. IsNamed e.1) row.tbl_name _ sch.tables
          (All-insert (λ e. e.1.name ≡ e.0) row.col_name.text (row_column row) (entries t.columns)
            refl named)
          h)
]

read_columns-AllNamed :
    (scans : List (Outcome ColumnRow)) (end_err : Option Error) (sch : Schema)
    → AllNamed (ok sch)
    → AllNamed (read_columns scans end_err sch)
unfolding read_columns
read_columns-AllNamed [] none sch h = h
read_columns-AllNamed [] (some e) sch h = tt
read_columns-AllNamed (scan ∷ scans) end_err sch h = OnOk-each Named scan _ λ row.
    OnOk-then Named Named (set_table_col row sch) (read_columns scans end_err)
      (set_table_col-AllNamed row sch h) (read_columns-AllNamed scans end_err)

-- The essential columns of a table are the keys of its columns, and each column has its key as name.
abbrev pub IsEssential : Table → Type 0
IsEssential t = IsNamed t × (t.essential_columns ≡ some (keys (entries t.columns)))

names-keys : (m : Map Column) → All (λ e. e.1.name ≡ e.0) m → map (λ e. e.1.name) m ≡ keys m
names-keys [] h = refl
names-keys ((k, c) ∷ m) h = cc (h.0, names-keys m h.1)

essentials-IsEssential :
    (tables : Map Table)
    → All (λ e. IsNamed e.1) tables
    → All {A = String × Table}
        (λ e. IsEssential e.1)
        (map (λ (k, t). (k, with_essentials t)) tables)
essentials-IsEssential [] h = tt
essentials-IsEssential ((k, t) ∷ tables) h =
    ((h.0, ap some (names-keys (entries t.columns) h.0)), essentials-IsEssential tables h.1)

abbrev Loaded : Schema → Type 0
Loaded sch = All (λ e. IsEssential e.1) sch.tables

abbrev pub IsLoaded : Outcome Schema → Type 0
IsLoaded = OnOk Loaded

parse_schema-AllNamed :
    (query : String → Outcome (Rows String)) (db : String) → AllNamed (parse_schema query db)
unfolding parse_schema default_schema
parse_schema-AllNamed query db =
    OnOk-each Named (query _) _
      λ rows. read_names-AllNamed rows.scans rows.end_err default_schema tt

parse_tables-AllNamed :
    (query : String → Outcome (Rows ColumnRow)) (db : String) (sch : Schema)
    → AllNamed (ok sch)
    → AllNamed (parse_tables query db sch)
unfolding parse_tables
parse_tables-AllNamed query db sch h =
    OnOk-each Named (query _) _ λ rows. read_columns-AllNamed rows.scans rows.end_err sch h

-- Every table of a schema that `LoadSchema` returns has each of its columns under the column's own
-- name, and has all of them, and nothing else, as its essential columns.
pub load_schema-IsLoaded :
    (query_names : String → Outcome (Rows String))
    (query_columns : String → Outcome (Rows ColumnRow)) (db_name : String)
    → IsLoaded (load_schema query_names query_columns db_name)
unfolding load_schema set_default_essential_columns
load_schema-IsLoaded query_names query_columns db_name =
    OnOk-then Loaded Named (parse_schema query_names db_name)
      (λ sch. parse_tables query_columns db_name sch >>= λ parsed.
        ok (set_default_essential_columns parsed))
      (parse_schema-AllNamed query_names db_name)
      λ sch named.
        OnOk-then Loaded Named (parse_tables query_columns db_name sch)
          (λ parsed. ok (set_default_essential_columns parsed))
          (parse_tables-AllNamed query_columns db_name sch named)
          λ parsed. essentials-IsEssential parsed.tables
