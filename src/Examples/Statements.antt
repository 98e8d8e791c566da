-- ===== src/Examples/Statements.antt =====
-- Runs of the statement builders of adapters/core.
use dyndao.Base.{String, ◌≡◌, refl, ◌+◌, [], ◌∷◌, length, false}
use dyndao.Base.Map.{lookup, keys, contains}
use dyndao.Base.Outcome.{ok}
use dyndao.Base.Int.{pos}
use dyndao.Value.{format_uint, nil, string}
use dyndao.Schema.{get_table, get_column, get_column_name, override_name}
use dyndao.SqlGen.{Dest}
use dyndao.Object.{Object, new, set, get}
use dyndao.Core.Insert.{
  binding_insert, core_binding_insert, render_insert_value, binding_insert_sql,
}
use dyndao.Core.Insert.Counts.{non_nils, RendersAsCore, InsertLinesUp, binding_insert_lines_up}
use dyndao.Core.Where.{render_binding_value, render_binding_value_with_int}
use dyndao.Core.Update.{set_column, update_lists, sql_value_convert, zero_time}
use dyndao.Core.Update.Lists.{blanks, identity_count, changed_update_blanks, full_update_blanks}
use dyndao.Core.Update.Saved.{fresh_set_not_saved}
use dyndao.Core.Columns.{dynamic_object_setter, make_column_pointers, column_pointer}
use dyndao.Core.Columns.Fit.{pointers_fit}
use dyndao.Adapters.Disjoint.{sqlite-AreDisjoint}
use dyndao.Adapters.Sqlite.Types.{is_timestamp_type, is_number_type}
use dyndao.Base.Lists.{join}
use dyndao.Examples.Data.{std, people, schema, person, saved_person, sqlite}

sqlite-RendersAsCore : RendersAsCore sqlite
unfolding render_binding_value
sqlite-RendersAsCore = record { placeholder = λ f. refl; values = λ s f v. refl }

-- A town that is nil
binding_insert_lines_up_example :
    InsertLinesUp sqlite people
      (override_name people.name "people")
      (("Name", string "Ann") ∷ ("Town", nil) ∷ [])
      ("INSERT INTO people (Name,Town) VALUES (?,?)", string "Ann" ∷ [])
unfolding get_table get_column_name join lookup binding_insert core_binding_insert
    render_insert_value binding_insert_sql render_binding_value override_name
binding_insert_lines_up_example =
    binding_insert_lines_up non_nils std sqlite schema "people" people
      (("Name", string "Ann") ∷ ("Town", nil) ∷ []) "INSERT INTO people (Name,Town) VALUES (?,?)"
      (string "Ann" ∷ []) sqlite-RendersAsCore (λ vs. refl) (tt, (tt, tt)) refl refl

fresh_set_not_saved_example :
    update_lists std sqlite people (set std "Town" (string "Rome") person)
    ≡ update_lists std sqlite people person
unfolding contains get lookup
fresh_set_not_saved_example =
    fresh_set_not_saved std sqlite people "Town" (string "Rome") person (λ e. cc) refl refl

changed_update_blanks_example :
    (length {A = String} ("Name = ?" ∷ []) ≡ length person.changed_columns)
    × (length (string "Ann" ∷ []) ≡ length person.changed_columns)
    × (blanks ("Name = ?" ∷ []) ≡ identity_count people (keys person.changed_columns))
unfolding update_lists set_column sql_value_convert zero_time is_timestamp_type get_column lookup
    render_binding_value_with_int get
changed_update_blanks_example =
    changed_update_blanks std sqlite people person ("Name = ?" ∷ []) (string "Ann" ∷ []) (λ e. cc)
      refl

full_update_blanks_example :
    (length {A = String} ("Name = ?0" ∷ []) + 1 ≡ length saved_person.kv)
    × (length (string "Ann" ∷ []) + 1 ≡ length saved_person.kv)
    × (blanks ("Name = ?0" ∷ []) + 1 ≡ identity_count people (keys saved_person.kv))
unfolding update_lists set_column sql_value_convert zero_time is_timestamp_type get_column lookup
    render_binding_value get format_uint
full_update_blanks_example =
    full_update_blanks std sqlite people saved_person ("Name = ?0" ∷ []) (string "Ann" ∷ []) refl
      refl

pointers_fit_example :
    (o : Object) × (dynamic_object_setter std sqlite.classes
        ("PersonID" ∷ [])
        (Dest.int64 (pos 5) ∷ [])
        (record { database_type_name = "INTEGER"; nullable = false } ∷ [])
        (new "people")
      ≡ ok o)
unfolding make_column_pointers column_pointer is_number_type
pointers_fit_example =
    pointers_fit std sqlite.classes ("PersonID" ∷ [])
      (record { database_type_name = "INTEGER"; nullable = false } ∷ []) (Dest.int64 (pos 0) ∷ [])
      (Dest.int64 (pos 5) ∷ []) (new "people") sqlite-AreDisjoint refl (tt, tt)
