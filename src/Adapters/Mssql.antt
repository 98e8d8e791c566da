-- ===== src/Adapters/Mssql.antt =====
-- adapters/mssql: create_table.go; the child has types.go.
pub mod Types
pub mod New
use dyndao.Base.{String, some, ◌==◌, if◌then◌else◌}
use dyndao.Base.Outcome.{Outcome, ok}
use dyndao.Value.{Std}
use dyndao.Schema.{Column}
use dyndao.Adapters.Common

unfoldable pub map_type : String → String
map_type s =
    if s == "INTEGER"
    then "INT"
    else if s == "TEXT"
    then "TEXT"
    else if s == "BLOB"
    then "IMAGE"
    else s

unfoldable pub render_create_column : Std → Column → Outcome (String × Column)
render_create_column s f = ok (Common.render_create_column s f "IDENTITY" (some map_type), f)
