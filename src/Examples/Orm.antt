-- ===== src/Examples/Orm.antt =====
-- Runs of the ORM against a database that fails no call.
use dyndao.Base.{
  ℕ, suc, ◌-◌, String, ◌≡◌, refl, true, false, [], ◌∷◌, none, some, Option, List, arith,
  if◌then◌else◌,
}
use dyndao.Base.Map.{Map, lookup, contains}
use dyndao.Base.Outcome.{Error, Outcome, ok, err, panic, message, wrap, external}
use dyndao.Base.Int.{pos}
use dyndao.Schema.{get_table}
use dyndao.Object.{Object, is_dirty, new}
use dyndao.Orm.{Orm, Session, HookFunction, call_hook_if_needed, check_ctx}
use dyndao.Orm.Handles.{Counts}
use dyndao.Orm.Write.{insert, update, delete}
use dyndao.Orm.Write.After.{is_saved, writes_leave_saved}
use dyndao.Orm.Write.Handles.{KeepsCount, writes_close_statements}
use dyndao.Orm.Save.{save}
use dyndao.Orm.Save.Choice.{Chosen, saves_choose}
use dyndao.Orm.Load.{
  retrieve_many_core, retrieve_many, retrieve_many_from_custom_sql, retrieve_tx, retrieve,
}
use dyndao.Orm.Load.Loaded.{gives_clean, retrieved_are_clean, retrieves_close_statements}
use dyndao.Orm.Upsert.{find_or_create_tx}
use dyndao.Orm.Upsert.Outcomes.{find_or_create_only_finds}
use dyndao.Orm.Tree.{Forest, recurse_and_save, save_all}
use dyndao.Orm.Tree.Rollback.{failed_save_rolls_back_twice}
use dyndao.Orm.Children.{retrieve_with_children, child_pk_values}
use dyndao.Orm.Children.Missing.{missing_parent_panics}
use dyndao.Orm.Transact.{transact, transact_rethrow}
use dyndao.Orm.Transact.Outcomes.{
  with_commit, BothEnd, transact_ends_once, commit_error_lost, panic_becomes_success,
}
use dyndao.Examples.Data.{
  World, world, note, orm, saved_person, new_person, kin, kin_child, kin_orm,
}

abbrev session : Object → Session World
session obj = record { object = obj; world = world }

-- A function that panics inside of its transaction
abbrev panics : ℕ → World → Outcome (Unit {0}) × World
panics tx w = (panic "boom", note "work" w)

transact_ends_once_example :
    ((transact orm panics world).1 ≡ note "rollback" (note "work" (note "begin" world)))
    × ((transact_rethrow orm panics world).1 ≡ note "rollback" (note "work" (note "begin" world)))
transact_ends_once_example = transact_ends_once orm panics world (note "begin" world) 7 refl

commit_error_lost_example :
    ((transact (with_commit orm (λ tx w. (err (external "no"), w))) (λ tx w. (ok tt, w)) world).0
      ≡ (transact orm (λ tx w. (ok tt, w)) world).0)
    × ((transact_rethrow
          (with_commit orm (λ tx w. (err (external "no"), w)))
          (λ tx w. (ok tt, w))
          world).0
        ≡ (transact_rethrow orm (λ tx w. (ok tt, w)) world).0)
commit_error_lost_example =
    commit_error_lost orm (λ tx w. (ok tt, w)) world (λ tx w. (err (external "no"), w))
      (λ tx w. refl) (λ tx w. refl)

panic_becomes_success_example :
    BothEnd (panic "boom") (transact orm panics world) (transact_rethrow orm panics world)
panic_becomes_success_example =
    panic_becomes_success orm panics world (note "begin" world) 7 refl refl

saves_choose_example : Chosen orm none (session new_person)
saves_choose_example = saves_choose orm none (session new_person)

writes_leave_saved_example :
    (is_saved (insert orm none (session new_person)) ≡ true)
    × (is_saved (update orm none (session new_person)) ≡ true)
    × (is_saved (delete orm none (session new_person)) ≡ true)
writes_leave_saved_example = writes_leave_saved orm none (session new_person)

database-Counts : Counts orm.raw_conn (λ w. w.open_stmts)
database-Counts = record {
  count_prepare = λ tx sql w. refl;
  count_close = λ stmt w. refl;
  count_exec = λ stmt args w. refl;
  count_query = λ stmt args w. refl;
  count_close_rows = λ w. refl;
}

-- No hooks are set.
no_hooks : KeepsCount orm (λ w. w.open_stmts) database-Counts []
unfolding call_hook_if_needed lookup
no_hooks st = refl

writes_close_statements_example :
    ((insert orm none (session new_person)).1.world.open_stmts ≡ 0)
    × ((update orm none (session new_person)).1.world.open_stmts ≡ 0)
    × ((delete orm none (session new_person)).1.world.open_stmts ≡ 0)
writes_close_statements_example =
    writes_close_statements orm (λ w. w.open_stmts) database-Counts none (session new_person)
      no_hooks no_hooks no_hooks no_hooks

retrieved_are_clean_example :
    (gives_clean (retrieve_many orm "people" [] world).0 ≡ true)
    × (gives_clean
          (retrieve_many_from_custom_sql orm "people" "SELECT 1" ("PersonID" ∷ []) [] world).0
        ≡ true)
retrieved_are_clean_example =
    retrieved_are_clean orm "people" "SELECT 1" ("PersonID" ∷ []) [] [] world

retrieves_close_statements_example :
    ((retrieve_many_core orm none "people" [] world).1.open_stmts ≡ 0)
    × ((retrieve_many_from_custom_sql orm "people" "SELECT 1"
          ("PersonID" ∷ [])
          []
          world).1.open_stmts
        ≡ 0)
retrieves_close_statements_example =
    retrieves_close_statements orm (λ w. w.open_stmts) database-Counts none "people" "SELECT 1"
      ("PersonID" ∷ []) [] [] world

-- A tree whose only object is of a table that the schema does not have
abbrev ghosts : Forest World
ghosts = record { objects = new "ghost" ∷ []; world = world }

abbrev unknown : Error
unknown = message "Save: unknown object table ghost"

failed_save_rolls_back_twice_example : save_all orm 1 0 ghosts ≡ (
  err (wrap unknown "transaction is done"),
  record ghosts { world = note "rollback" (note "rollback" (note "begin" world)) },
)
unfolding recurse_and_save save get_table lookup new check_ctx
failed_save_rolls_back_twice_example =
    failed_save_rolls_back_twice orm 1 0 7 ghosts (record ghosts { world = note "begin" world })
      (note "begin" world) (note "rollback" (note "begin" world))
      (note "rollback" (note "rollback" (note "begin" world))) unknown
      (external "transaction is done") refl refl refl refl refl refl

-- A database with one row, and an object without values, which every row matches
find_or_create_only_finds_example :
    (pos 0 ≡ pos 0)
    × ((row : Object) × (some saved_person ≡ some row)
        × (retrieve_tx orm none "people" [] world ≡ (
          ok (some row),
          record world { log = "query" ∷ "SELECT PersonID,Name FROM people  " ∷ [] },
        )))
unfolding find_or_create_tx new retrieve_tx dyndao.Orm.Load.retrieve_core check_ctx
    retrieve_many_core get_table lookup dyndao.Core.Statements.binding_retrieve
    dyndao.Orm.Load.make_query_obj dyndao.Core.Where.render_where_clause
    dyndao.Orm.stmt_from_db_or_tx dyndao.Core.Columns.make_column_pointers
    dyndao.Adapters.Sqlite.Types.is_number_type dyndao.Adapters.Sqlite.Types.is_timestamp_type
    dyndao.Adapters.Sqlite.Types.is_lob_type dyndao.Adapters.Sqlite.Types.is_string_type
    dyndao.Core.Columns.dynamic_object_setter dyndao.Object.reset_changed_columns
    dyndao.Base.Lists.join dyndao.Base.Map.insert dyndao.Core.Columns.column_pointer
    dyndao.Core.Columns.column_value dyndao.Object.column_changed dyndao.Object.get is_dirty
    dyndao.Object.mark_dirty dyndao.Object.set dyndao.Object.set_core dyndao.Schema.override_name
find_or_create_only_finds_example =
    find_or_create_only_finds orm none (new "people") world
      (record world { log = "query" ∷ "SELECT PersonID,Name FROM people  " ∷ [] }) (pos 0)
      (some saved_person) refl

abbrev asked : List String → World
asked log = record world { log = log }

abbrev kin_sql : String
kin_sql = "SELECT PersonID FROM kin  "

missing_parent_panics_example :
    (retrieve_with_children kin_orm "kin" [] (record { objects = []; world = world })).0
    ≡ panic "nil pointer dereference"
unfolding retrieve dyndao.Orm.Load.retrieve_core check_ctx retrieve_many_core get_table lookup
    dyndao.Core.Statements.binding_retrieve dyndao.Orm.Load.make_query_obj
    dyndao.Core.Where.render_where_clause dyndao.Orm.stmt_from_db_or_tx
    dyndao.Core.Columns.make_column_pointers dyndao.Adapters.Sqlite.Types.is_number_type new
    dyndao.Base.Lists.join dyndao.Core.Columns.column_pointer dyndao.Schema.override_name
    child_pk_values
missing_parent_panics_example =
    missing_parent_panics kin_orm "kin" "kin" [] kin kin kin_child [] none
      (record { objects = []; world = world }) (asked (kin_sql ∷ []))
      (asked (kin_sql ∷ kin_sql ∷ [])) refl refl refl refl refl refl
