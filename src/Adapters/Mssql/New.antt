-- ===== src/Adapters/Mssql/New.antt =====
-- adapters/mssql/new.go
use dyndao.Base.{some, false}
use dyndao.SqlGen.Vtable.{Vtable}
use dyndao.Adapters.Mssql
use dyndao.Adapters.Mssql.Types

unfoldable pub new : Vtable → Vtable
new g = record g {
  fix_last_insert_id_bug = false;
  is_string_type = some Types.is_string_type;
  is_number_type = some Types.is_number_type;
  is_floating_type = some Types.is_floating_type;
  is_timestamp_type = some Types.is_timestamp_type;
  is_lob_type = some Types.is_lob_type;
  render_create_column = some Mssql.render_create_column;
}
