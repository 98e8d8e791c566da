-- ===== src/Adapters/Valid.antt =====
-- What the four constructors (adapters/*/new.go) make of the core generator.
use dyndao.Base.{String, ◌≡◌, refl, List}
use dyndao.Base.Outcome.{ok, panic}
use dyndao.Value.{Value}
use dyndao.SqlGen.Vtable.{panic_if_invalid}
use dyndao.Core.New
use dyndao.Adapters.Sqlite.New as SqliteNew
use dyndao.Adapters.Mysql.New as MysqlNew
use dyndao.Adapters.Mssql.New as MssqlNew
use dyndao.Adapters.Oracle.New as OracleNew

-- PanicIfInvalid accepts the generator of each of the four adapters, whatever DB_TRACE says, and
-- panics on the core generator alone.
pub adapters_valid :
    (remove_nils : List Value → List Value) (db_trace : String)
    → let core = New.new remove_nils db_trace in
      (panic_if_invalid (SqliteNew.new core) ≡ ok tt)
      × (panic_if_invalid (MysqlNew.new core) ≡ ok tt)
      × (panic_if_invalid (MssqlNew.new core) ≡ ok tt)
      × (panic_if_invalid (OracleNew.new core) ≡ ok tt)
      × (panic_if_invalid core ≡ panic "dyndao: vtable IsStringType is nil")
unfolding panic_if_invalid New.new SqliteNew.new MysqlNew.new MssqlNew.new OracleNew.new
adapters_valid remove_nils db_trace = (refl, refl, refl, refl, refl)
