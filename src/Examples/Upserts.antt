-- ===== src/Examples/Upserts.antt =====
-- Create or update, and insert, against a database whose every query gives one row.
use dyndao.Base.{◌≡◌, ◌≢◌, refl, none, false}
use dyndao.Base.Int.{pos}
use dyndao.Object.{Object, is_dirty}
use dyndao.Orm.{Session}
use dyndao.Orm.Load.{retrieve_tx}
use dyndao.Orm.Upsert.{create_or_update_tx}
use dyndao.Orm.Upsert.Outcomes.{WroteAfter, create_or_update_writes}
use dyndao.Orm.Write.{insert, update}
use dyndao.Adapters.Sqlite.Types.{is_timestamp_type}
use dyndao.Examples.Data.{World, world, orm, person}

abbrev asked : Session World
asked = record { object = person; world = world }

abbrev answered : Session World
answered = (create_or_update_tx orm none asked).1

create_or_update_writes_example :
    WroteAfter orm
      (retrieve_tx orm none person.object_type person.kv world)
      none
      asked
      (pos 1)
      answered
    × (pos 1 ≢ pos 0)
    × (answered.object ≡ answered.object)
    × (is_dirty answered.object ≡ false)
unfolding create_or_update_tx retrieve_tx dyndao.Orm.Load.retrieve_core dyndao.Orm.check_ctx
    dyndao.Orm.Load.retrieve_many_core dyndao.Schema.get_table dyndao.Base.Map.lookup
    dyndao.Core.Statements.binding_retrieve dyndao.Orm.Load.make_query_obj
    dyndao.Core.Where.render_where_clause dyndao.Object.new dyndao.Orm.stmt_from_db_or_tx
    dyndao.Core.Columns.make_column_pointers dyndao.Adapters.Sqlite.Types.is_number_type
    dyndao.Adapters.Sqlite.Types.is_timestamp_type dyndao.Adapters.Sqlite.Types.is_lob_type
    dyndao.Adapters.Sqlite.Types.is_string_type dyndao.Core.Columns.dynamic_object_setter
    dyndao.Object.reset_changed_columns dyndao.Base.Map.insert dyndao.Core.Columns.column_pointer
    dyndao.Core.Columns.column_value dyndao.Object.column_changed dyndao.Object.get is_dirty
    dyndao.Object.mark_dirty dyndao.Object.set dyndao.Object.set_core dyndao.Schema.override_name
    dyndao.Base.Map.contains dyndao.Orm.Write.update dyndao.Orm.call_hook_if_needed
    dyndao.Core.Update.binding_update dyndao.Core.Where.render_update_where_clause
    dyndao.Schema.get_column dyndao.Core.Update.set_column dyndao.Core.Update.sql_value_convert
    dyndao.Core.Update.zero_time dyndao.Orm.Write.maybe_dereference_arg
    dyndao.Core.Update.update_lists dyndao.Value.same
create_or_update_writes_example =
    create_or_update_writes orm none asked answered (pos 1) answered.object refl
