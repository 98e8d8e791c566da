-- ===== src/Schema/OracleMetadata/Empty.antt =====
-- What schema/parser/oracle/metadata.go can load.
use dyndao.Base.{
  String, Option, none, some, List, [], ◌∷◌, map, All, ◌≡◌, ◌≢◌, refl, ap, ◌∙◌, arith, eq_iff,
  Option-cases, inl, inr,
}
use dyndao.Base.Map.{Map, lookup, insert, keys, lookup-insert}
use dyndao.Base.Entries.{All-insert, lookup-All}
use dyndao.Base.Outcome.{Error, Outcome, ok, ◌>>=◌, OnOk, OnOk-each, OnOk-then}
use dyndao.Schema.{Table, Schema, default_table, default_schema}
use dyndao.Schema.Infoschema.{Rows, read_names, with_essentials}
use dyndao.Schema.OracleMetadata.{
  ColumnRow, parse_schema, set_table_col, read_columns, each_table, parse_tables,
  set_default_essential_columns, load_schema,
}

-- Tables as `ParseSchema` makes them, none of them under the empty name
abbrev Fresh : Schema → Type 0
Fresh sch = All (λ e. e.1 ≡ default_table) sch.tables × (lookup "" sch.tables ≡ none)

-- Rows that hold no empty name
abbrev pub NamesTables : List (Outcome String) → Type 0
NamesTables = All (λ scan. OnOk (λ name. name ≢ "") scan)

read_names-Fresh :
    (scans : List (Outcome String)) (end_err : Option Error) (sch : Schema)
    → NamesTables scans
    → Fresh sch
    → OnOk Fresh (read_names scans end_err sch)
unfolding read_names
read_names-Fresh [] none sch names h = h
read_names-Fresh [] (some e) sch names h = tt
read_names-Fresh (scan ∷ scans) end_err sch names h =
    OnOk-then Fresh (λ name. name ≢ "") scan _ names.0
      λ name full.
        read_names-Fresh scans end_err
          (record sch { tables = insert name default_table sch.tables }) names.1
          (
            All-insert (λ e. e.1 ≡ default_table) name default_table sch.tables refl h.0,
            ground
                (arith, lookup-insert name "" default_table sch.tables, eq_iff name "", full, h.1),
          )

-- No row of a DESCRIBE is taken: the schema has no table under the empty name.
read_columns-same :
    (scans : List (Outcome ColumnRow)) (end_err : Option Error) (sch : Schema)
    → lookup "" sch.tables ≡ none
    → OnOk (λ sch'. sch' ≡ sch) (read_columns "" scans end_err sch)
unfolding read_columns set_table_col
read_columns-same [] none sch h = refl
read_columns-same [] (some e) sch h = tt
read_columns-same (scan ∷ scans) end_err sch h =
    OnOk-each (λ sch'. sch' ≡ sch) scan _ λ row. rw (h, set_table_col) tt

-- A table that statements cannot be made for
abbrev pub IsBlank : Table → Type 0
IsBlank t = (t.name ≡ "") × (t.columns ≡ some []) × (t.essential_columns ≡ some [])

abbrev AllBlank : Schema → Type 0
AllBlank sch = All (λ e. IsBlank e.1) sch.tables

tables-IsBlank :
    (tables : Map Table)
    → All (λ e. e.1 ≡ default_table) tables
    → All {A = String × Table} (λ e. IsBlank e.1) (map (λ (k, t). (k, with_essentials t)) tables)
unfolding default_table
tables-IsBlank [] h = tt
tables-IsBlank ((k, t) ∷ tables) h = (rw h.0 (refl, refl, refl), tables-IsBlank tables h.1)

module _ (describe : String → Outcome (Rows ColumnRow)) (db : String) where
  each_table-same :
      (ks : List String) (sch : Schema)
      → Fresh sch
      → OnOk (λ sch'. sch' ≡ sch) (each_table describe db ks sch)
  unfolding each_table default_table
  each_table-same [] sch h = refl
  each_table-same (k ∷ ks) sch h = elim (Option-cases (lookup k sch.tables)) [
    | inl missing ↦ rw (missing, each_table) (each_table-same ks sch h)
    | inr (t, found) ↦
        let fresh : t ≡ default_table =
          lookup-All (λ t. t ≡ default_table) k t sch.tables h.0 found in
        rw (found ∙ ap some fresh, each_table)
          (OnOk-each (λ sch'. sch' ≡ sch) (describe _) _
            λ rows.
              OnOk-then (λ sch'. sch' ≡ sch) (λ sch'. sch' ≡ sch)
                (read_columns "" rows.scans rows.end_err sch) (each_table describe db ks)
                (read_columns-same rows.scans rows.end_err sch h.1)
                λ sch' e. rw e (each_table-same ks sch h))
  ]

  -- Where the catalogue lists no table with an empty name, every table of a schema that `LoadSchema`
  -- returns has an empty name and no columns, whatever a DESCRIBE gives: a row would make it panic.
  pub load_schema_finds_no_columns :
      (scans : List (Outcome String)) (end_err : Option Error)
      → NamesTables scans
      → OnOk
          (λ sch. All (λ e. IsBlank e.1) sch.tables)
          (load_schema describe db
            (λ sql name status. ok (record { scans = scans; end_err = end_err })))
  unfolding load_schema parse_schema parse_tables set_default_essential_columns default_schema
      lookup
  load_schema_finds_no_columns scans end_err names =
      OnOk-then AllBlank Fresh (read_names scans end_err default_schema)
        (λ sch. each_table describe db (keys sch.tables) sch >>= λ parsed.
          ok (set_default_essential_columns parsed))
        (read_names-Fresh scans end_err default_schema names (tt, refl))
        λ sch fresh.
          OnOk-then AllBlank (λ sch'. sch' ≡ sch) (each_table describe db (keys sch.tables) sch)
            (λ parsed. ok (set_default_essential_columns parsed))
            (each_table-same (keys sch.tables) sch fresh)
            λ parsed e. rw e (tables-IsBlank sch.tables fresh.0)
