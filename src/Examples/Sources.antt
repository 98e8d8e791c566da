-- ===== src/Examples/Sources.antt =====
-- Rows of Oracle, its catalogue, and JSON arrays.
use dyndao.Base.{String, Option, ◌≡◌, refl, true, none, some, [], ◌∷◌, map, All, List}
use dyndao.Base.Outcome.{ok, OnOk}
use dyndao.SqlGen.{ColumnType}
use dyndao.Orm.{Orm}
use dyndao.Orm.Load.{read_result}
use dyndao.Orm.Load.NullLob.{scan_lob, row_of, ReadsLobs, null_lob_repeats}
use dyndao.Adapters.Disjoint.{oracle-AreDisjoint}
use dyndao.Adapters.Oracle.Types as OracleTypes
use dyndao.Adapters.Oracle.Types.{is_lob_type}
use dyndao.Adapters.Oracle.Columns as OracleColumns
use dyndao.Schema.OracleMetadata.{load_schema}
use dyndao.Schema.OracleMetadata.Empty.{IsBlank, load_schema_finds_no_columns}
use dyndao.Examples.Data.{World, orm, sqlite}

abbrev oracle_orm : Orm World
oracle_orm = record orm {
  sql_gen = record sqlite {
    classes = OracleTypes.classes;
    dynamic_object_setter = OracleColumns.dynamic_object_setter 0;
    make_column_pointers = OracleColumns.make_column_pointers;
  };
}

abbrev clob : ColumnType
clob = record { database_type_name = "CLOB"; nullable = true }

oracle-ReadsLobs : ReadsLobs oracle_orm "people" "Notes" clob
unfolding is_lob_type
oracle-ReadsLobs = record {
  classes_disjoint = oracle-AreDisjoint;
  is_lob = refl;
  sets = λ names ds cts obj. refl;
  points = λ n cts. refl;
}

-- The second of three rows is NULL.
abbrev notes : List (Option String)
notes = some "first" ∷ none ∷ some "third" ∷ []

null_lob_repeats_example :
    read_result oracle_orm "people"
      ("Notes" ∷ [])
      (record { column_types = ok (clob ∷ []); scans = map scan_lob notes; end_err = none })
    ≡ ok (map (row_of oracle_orm "people" "Notes" clob) ("first" ∷ "first" ∷ "third" ∷ []))
null_lob_repeats_example = null_lob_repeats oracle_orm "people" "Notes" clob oracle-ReadsLobs notes

load_schema_finds_no_columns_example :
    OnOk
      (λ sch. All (λ e. IsBlank e.1) sch.tables)
      (load_schema
        (λ sql. ok (record { scans = []; end_err = none }))
        "db"
        (λ sql name status. ok (record { scans = ok "people" ∷ []; end_err = none })))
load_schema_finds_no_columns_example =
    load_schema_finds_no_columns (λ sql. ok (record { scans = []; end_err = none })) "db"
      (ok "people" ∷ []) none ((λ e. cc e), tt)
