-- ===== src/Orm/Children/Missing.antt =====
-- `RetrieveWithChildren` (orm/load.go) where there is no parent row.
use dyndao.Base.{String, Option, none, some, ◌∷◌, ◌≡◌, arith}
use dyndao.Base.Map.{Map}
use dyndao.Base.Outcome.{ok, panic}
use dyndao.Value.{Value}
use dyndao.Schema.{Table, ChildTable, get_table}
use dyndao.Object.{Object}
use dyndao.Orm.{Orm, check_ctx}
use dyndao.Orm.Load.{retrieve}
use dyndao.Orm.Tree.{Forest}
use dyndao.Orm.Children.{child_pk_values, retrieve_with_children}

module _ {S : Type 0} (o : Orm S) where
  -- While the context lives, for a known table with children of which no row is found,
  -- `RetrieveWithChildren` panics, once it has looked up the first child, of a known table, without
  -- error.
  pub missing_parent_panics :
      (table child : String) (pk_values : Map Value) (t child_table : Table) (ct : ChildTable)
      (rest : Map ChildTable) (found : Option Object) (h : Forest S) (w w' : S)
      → o.raw_conn.ctx_err h.world ≡ none
      → get_table o.schema table ≡ some t
      → t.children ≡ (child, ct) ∷ rest
      → get_table o.schema child ≡ some child_table
      → retrieve o table pk_values h.world ≡ (ok none, w)
      → retrieve o child (child_pk_values child_table pk_values) w ≡ (ok found, w')
      → (retrieve_with_children o table pk_values h).0 ≡ panic "nil pointer dereference"
  unfolding retrieve_with_children check_ctx
  missing_parent_panics table child pk_values t child_table ct rest found h w w' live known has
        child_known none_found child_found =
      ground arith
