-- ===== src/Core/New.antt =====
-- adapters/core/new.go. The environment variable DB_TRACE and nils.RemoveNilsIfNeeded are arguments.
use dyndao.Base.{String, not, some, List, ◌==◌}
use dyndao.Value.{Value}
use dyndao.SqlGen.Vtable.{Vtable, zero_vtable}
use dyndao.Core.Insert
use dyndao.Core.Where
use dyndao.Core.Update
use dyndao.Core.Statements
use dyndao.Core.Columns

unfoldable pub new : (List Value → List Value) → String → Vtable
new remove_nils db_trace = record zero_vtable {
  tracing = not (db_trace == "");
  create_table = some (λ g s sch t. Statements.create_table s g sch t);
  drop_table = some Statements.drop_table;
  core_binding_insert = some (λ g s t fields m. Insert.core_binding_insert s g t fields m);
  binding_insert = some (λ g s sch t m. Insert.binding_insert remove_nils s g sch t m);
  binding_insert_sql = some Insert.binding_insert_sql;
  binding_retrieve = some Statements.binding_retrieve;
  binding_update = some (λ g s sch o. Update.binding_update remove_nils s g sch o);
  binding_delete = some Statements.binding_delete;
  render_binding_value = some Where.render_binding_value;
  render_binding_value_with_int = some Where.render_binding_value_with_int;
  render_where_clause = some Where.render_where_clause;
  render_insert_value = some Insert.render_insert_value;
  render_update_where_clause = some Where.render_update_where_clause;
  dynamic_object_setter = some Columns.dynamic_object_setter;
  make_column_pointers = some Columns.make_column_pointers;
}
