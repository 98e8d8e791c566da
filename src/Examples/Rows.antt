-- ===== src/Examples/Rows.antt =====
-- Rows that are read (orm/load.go), and what an INSERT takes of them (adapters/core/insert.go).
use dyndao.Base.{◌≡◌, ◌↔◌, refl, true, false, none, some, List, [], ◌∷◌, All}
use dyndao.Base.Map.{Map, lookup}
use dyndao.Base.Int.{pos}
use dyndao.Base.Outcome.{ok, OnOk, is_ok}
use dyndao.Value.{Value}
use dyndao.Schema.{get_table}
use dyndao.SqlGen.{ColumnType, Dest}
use dyndao.Core.Insert.{binding_insert}
use dyndao.Core.Insert.Bindable.{IsInsertable}
use dyndao.Core.Insert.Counts.{RendersAsCore, non_nils}
use dyndao.Core.Insert.Exactly.{binding_insert_iff}
use dyndao.Core.Where.{render_binding_value}
use dyndao.Orm.{ResultSet}
use dyndao.Orm.Load.{read_result}
use dyndao.Orm.Load.Typed.{HasColumnTypes, rows_are_typed}
use dyndao.Schema.{Column}
use dyndao.Examples.Data.{orm, std, schema, sqlite, people, column, person_id}

abbrev types : List ColumnType
types =
    record { database_type_name = "INTEGER"; nullable = false }
    ∷ record { database_type_name = "TEXT"; nullable = true }
    ∷ []

-- Two rows, the second with a NULL
abbrev rows : ResultSet
rows = record {
  column_types = ok types;
  scans =
      (λ ds.
        ok (Dest.int64 (pos 1) ∷ Dest.null_string (record { text = "Ann"; valid = true }) ∷ []))
      ∷ (λ ds.
          ok (Dest.int64 (pos 2) ∷ Dest.null_string (record { text = ""; valid = false }) ∷ []))
      ∷ [];
  end_err = none;
}

rows_are_typed_example :
    OnOk
      (All
        (HasColumnTypes orm (λ names ds cts obj. refl) "people" ("PersonID" ∷ "Name" ∷ []) types))
      (read_result orm "people" ("PersonID" ∷ "Name" ∷ []) rows)
rows_are_typed_example =
    rows_are_typed orm (λ names ds cts obj. refl) "people" ("PersonID" ∷ "Name" ∷ []) rows types
      refl

sqlite-RendersAsCore : RendersAsCore sqlite
unfolding render_binding_value
sqlite-RendersAsCore = record { placeholder = λ f. refl; values = λ s f v. refl }

-- A name as it is read from a nullable column
abbrev read_name : Map Value
read_name = ("Name", Value.null_string (record { text = "Ann"; valid = true })) ∷ []

abbrev fields : Map Column
fields =
    ("PersonID", person_id) ∷ ("Name", column "Name" false) ∷ ("Town", column "Town" false) ∷ []

binding_insert_iff_example :
    (is_ok (binding_insert non_nils std sqlite schema "people" (some read_name)) ≡ true)
    ↔ IsInsertable people fields read_name
unfolding get_table lookup
binding_insert_iff_example =
    binding_insert_iff non_nils (λ vs. refl) std sqlite sqlite-RendersAsCore schema "people" people
      fields read_name refl refl refl
