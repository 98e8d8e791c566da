-- ===== src/Adapters/Oracle/Lob.antt =====
-- LobDST of adapters/oracle/setter.go. goracle.Lob and the reading of its content are the driver's: a
-- value of the driver comes with what reading it gives.
use dyndao.Base.{String, ◌<>◌}
use dyndao.Base.Outcome.{Outcome, ok, err, message}
use dyndao.Core.Statements.{wrap_err}

-- What the driver hands to `Scan`: nil for NULL, a `*goracle.Lob`, or a value of another type
pub data LobSource : Type 0 where
  null : LobSource
  lob : Outcome String → LobSource
  other : String → LobSource

-- `Scan`, given what the LobDST holds: what it then holds
unfoldable pub scan : LobSource → String → Outcome String
scan null held = ok held
scan (lob content) held = wrap_err "failed to read son" content
scan (other type_name) held =
    err (message ("LobDST can only be used with goracle.Lib, type was " <> type_name))
