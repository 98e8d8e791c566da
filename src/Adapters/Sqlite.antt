-- ===== src/Adapters/Sqlite.antt =====
-- adapters/sqlite: create_table.go and transact.go; the child has types.go.
pub mod Types
pub mod New
use dyndao.Base.{String, ◌<>◌, none}
use dyndao.Base.Outcome.{Outcome, ok}
use dyndao.Value.{Std}
use dyndao.Schema.{Column}
use dyndao.Adapters.Common

unfoldable pub render_create_column : Std → Column → Outcome (String × Column)
render_create_column s f = ok (Common.render_create_column s f "PRIMARY KEY" none, f)

-- transact.go
unfoldable pub begin : String → String
begin name = "BEGIN " <> name

unfoldable pub commit : String
commit = "COMMIT"
