-- ===== src/Adapters/Mysql.antt =====
-- adapters/mysql: create_table.go; the child has types.go.
pub mod Types
pub mod New
use dyndao.Base.{String, false, some, ◌==◌, if◌then◌else◌}
use dyndao.Base.Outcome.{Outcome, ok}
use dyndao.Value.{Std}
use dyndao.Schema.{Column}
use dyndao.Adapters.Common

unfoldable pub map_type : String → String
map_type s = if s == "INTEGER" then "INT(11)" else s

-- An identity column is made not null in the schema itself.
abbrev not_null_identity : Column → Column
not_null_identity f = if f.is_identity then record f { allow_null = false } else f

unfoldable pub render_create_column : Std → Column → Outcome (String × Column)
render_create_column s f =
    let f' = not_null_identity f in
    ok (Common.render_create_column s f' "PRIMARY KEY AUTO_INCREMENT" (some map_type), f')
