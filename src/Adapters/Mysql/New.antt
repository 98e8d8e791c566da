-- ===== src/Adapters/Mysql/New.antt =====
-- adapters/mysql/new.go
use dyndao.Base.{some}
use dyndao.SqlGen.Vtable.{Vtable}
use dyndao.Adapters.Mysql
use dyndao.Adapters.Mysql.Types

unfoldable pub new : Vtable → Vtable
new g = record g {
  is_string_type = some Types.is_string_type;
  is_number_type = some Types.is_number_type;
  is_floating_type = some Types.is_floating_type;
  is_timestamp_type = some Types.is_timestamp_type;
  is_lob_type = some Types.is_lob_type;
  render_create_column = some Mysql.render_create_column;
}
