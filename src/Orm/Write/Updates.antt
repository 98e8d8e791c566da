-- ===== src/Orm/Write/Updates.antt =====
-- When `Update` of orm/update.go succeeds.
use dyndao.Base.{ℕ, String, ◌≡◌, Option, List, ◌++◌}
use dyndao.Base.Map.{Map}
use dyndao.Base.Outcome.{Outcome, ok}
use dyndao.Value.{Value}
use dyndao.Core.Update.{binding_update}
use dyndao.Orm.{Session, Orm}
use dyndao.Orm.Write.{dereference_all}
use dyndao.Orm.Write.Succeeds.{Accepts}

module _ {S : Type 0} (o : Orm S) where
  -- The database accepts the statement that BindingUpdate makes of the object, if it makes one, with
  -- its arguments and those of its WHERE clause, dereferenced.
  abbrev pub AcceptsUpdate : Option ℕ → Session S → Type 0
  AcceptsUpdate tx st =
      (sql : String) (args where_args bound : List Value)
      → binding_update o.remove_nils o.std o.sql_gen o.schema st.object ≡ ok (sql, args, where_args)
      → dereference_all (args ++ where_args) ≡ ok bound
      → Accepts o.raw_conn tx st.world sql bound
