-- ===== src/Examples/Objects.antt =====
-- Runs of object/ and schema/ code.
use dyndao.Base.{true, false, String, ◌≡◌, ◌⊎◌, [], ◌∷◌, none}
use dyndao.Base.Outcome.{Outcome, ok}
use dyndao.Value.{string}
use dyndao.Schema.Infoschema.{ColumnRow, Rows, load_schema}
use dyndao.Schema.Infoschema.Names.{IsLoaded, load_schema-IsLoaded}
use dyndao.Object.{new, get}
use dyndao.Object.Tracking.{
  IsTracked, new-IsTracked, assign, assign_where_needed, apply_all, apply_all-IsTracked, sets,
  last_set, Reads, sets_are_kept,
}
use dyndao.Examples.Data.{std, saved_person}

apply_all-IsTracked_example : IsTracked (
    apply_all std
      (assign "Name" (string "Ann") ∷ assign_where_needed "Town" (string "Rome") ∷ [])
      (new "people"))
apply_all-IsTracked_example =
    apply_all-IsTracked std
      (assign "Name" (string "Ann") ∷ assign_where_needed "Town" (string "Rome") ∷ [])
      (new "people") (new-IsTracked "people")

sets_are_kept_example :
    let after =
      apply_all std (sets (("Name", string "Bob") ∷ ("Name", string "Cid") ∷ [])) saved_person in
    Reads std
      (get "Name" saved_person)
      (last_set "Name" (("Name", string "Bob") ∷ ("Name", string "Cid") ∷ []))
      (get "Name" after)
    × ((after.dirty ≡ true) ⊎ (after ≡ saved_person))
sets_are_kept_example =
    sets_are_kept std (("Name", string "Bob") ∷ ("Name", string "Cid") ∷ []) "Name" saved_person

-- One table with one column
abbrev query_names : String → Outcome (Rows String)
query_names sql = ok (record { scans = ok "people" ∷ []; end_err = none })

abbrev query_columns : String → Outcome (Rows ColumnRow)
query_columns sql = ok (record {
  scans =
      ok (record {
        tbl_name = "people";
        col_name = record { text = "Name"; valid = true };
        data_type = "varchar";
        column_default = record { text = ""; valid = false };
        is_nullable = "YES";
        column_key = "";
        extra = "";
      })
      ∷ [];
  end_err = none;
})

load_schema-IsLoaded_example : IsLoaded (load_schema query_names query_columns "test")
load_schema-IsLoaded_example = load_schema-IsLoaded query_names query_columns "test"
