-- ===== src/Adapters/Oracle/New.antt =====
-- adapters/oracle/new.go
use dyndao.Base.{some, true}
use dyndao.SqlGen.Vtable.{Vtable}
use dyndao.Adapters.Oracle
use dyndao.Adapters.Oracle.Types
use dyndao.Adapters.Oracle.Columns

unfoldable pub new : Vtable → Vtable
new g = record g {
  fix_last_insert_id_bug = true;
  is_string_type = some Types.is_string_type;
  is_number_type = some Types.is_number_type;
  is_floating_type = some Types.is_floating_type;
  is_timestamp_type = some Types.is_timestamp_type;
  is_lob_type = some Types.is_lob_type;
  render_create_column = some Oracle.render_create_column;
  dynamic_object_setter = some (Columns.dynamic_object_setter 0);
  make_column_pointers = some Columns.make_column_pointers;
  render_insert_value = some Oracle.render_insert_value;
  binding_insert_sql = some Oracle.binding_insert_sql;
  render_binding_value = some Oracle.render_binding_value;
  render_binding_value_with_int = some Oracle.render_binding_value_with_int;
}
