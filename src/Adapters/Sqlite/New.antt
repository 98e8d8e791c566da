-- ===== src/Adapters/Sqlite/New.antt =====
-- adapters/sqlite/new.go
use dyndao.Base.{some}
use dyndao.SqlGen.Vtable.{Vtable}
use dyndao.Adapters.Sqlite
use dyndao.Adapters.Sqlite.Types

unfoldable pub new : Vtable → Vtable
new g = record g {
  is_string_type = some Types.is_string_type;
  is_number_type = some Types.is_number_type;
  is_floating_type = some Types.is_floating_type;
  is_timestamp_type = some Types.is_timestamp_type;
  is_lob_type = some Types.is_lob_type;
  render_create_column = some Sqlite.render_create_column;
}
