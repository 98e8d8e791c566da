-- ===== src/Orm/Children.antt =====
-- orm/load.go: `RetrieveWithChildren` and `FleshenChildren`. Objects stand in the heap of Orm/Tree, at
-- whose end new ones are put.
pub mod Missing
pub mod Fleshed
pub mod Filled
use dyndao.Base.{
  ℕ, String, ◌<>◌, Bool, ◌&&◌, Option, none, some, List, [], ◌∷◌, ◌++◌, length, map, or_else,
  if◌then◌else◌, set_elem,
}
use dyndao.Base.Map.{Map, lookup, insert, keys}
use dyndao.Base.Outcome.{Error, Outcome, message}
use dyndao.Value.{Value, nil}
use dyndao.Schema.{Table, get_table}
use dyndao.Object.{Object, Array, get}
use dyndao.Orm.{
  Act, pure, fail, crash, or_fail, or_crash, wrapped, gets, modify, ◌>>=◌, ◌>>◌, proceed, Orm,
  check_ctx,
}
use dyndao.Orm.Load.{retrieve, retrieve_many}
use dyndao.Orm.Tree.{Forest, load, store, on_db}

-- `childPkValues[fk] = pkValues[fk]`, which is nil where there is none
foreign_values : Map Value → List String → Map Value → Map Value
foreign_values pk_values [] child_values = child_values
foreign_values pk_values (fk ∷ fks) child_values =
    foreign_values pk_values fks (insert fk (or_else nil (lookup fk pk_values)) child_values)

-- What a child is looked up by
unfoldable pub child_pk_values : Table → Map Value → Map Value
unfolding foreign_values
child_pk_values child_table pk_values =
    let primary : Map Value = elim (lookup child_table.primary pk_values) [
      | none ↦ []
      | some v ↦ (child_table.primary, v) ∷ []
    ] in
    if child_table.multi_key
    then foreign_values pk_values (or_else [] child_table.foreign_keys) primary
    else primary

-- `obj.Children[name][0] = childObj`, where the array is made if it is nil
first_child : Option ℕ → Option Array → Array
first_child child none = child ∷ []
first_child child (some []) = child ∷ []
first_child child (some (old ∷ rest)) = child ∷ rest

module _ {S : Type 0} (o : Orm S) where
  -- A new object, at its address
  allocate : Object → Act (Forest S) ℕ
  allocate obj h = pure (length h.objects) (record h { objects = h.objects ++ obj ∷ [] })

  pub allocate_all : List Object → Act (Forest S) Array
  unfolding allocate
  allocate_all [] = pure []
  allocate_all (obj ∷ objs) = do at ← allocate obj; rest ← allocate_all objs; pure (some at ∷ rest)

  -- nil stays nil.
  allocate_found : Option Object → Act (Forest S) (Option ℕ)
  unfolding allocate
  allocate_found none = pure none
  allocate_found (some obj) = allocate obj >>= λ at. pure (some at)

  pub fleshen_each : String → Value → ℕ → List String → Act (Forest S) (Unit {0})
  unfolding allocate_all
  fleshen_each pk_key pk_val at [] = pure tt
  fleshen_each pk_key pk_val at (name ∷ names) = do
    objs ← on_db o (retrieve_many o name ((pk_key, pk_val) ∷ []))
    children ← allocate_all objs
    obj ← load o at
    modify (store o at (record obj { children = insert name children obj.children }))
    fleshen_each pk_key pk_val at names

  unfoldable pub fleshen_children : ℕ → Act (Forest S) ℕ
  unfolding fleshen_each
  fleshen_children at = do
    on_db o (check_ctx o)
    obj ← load o at
    t ← or_crash (get_table o.schema obj.object_type)
    fleshen_each t.primary (get t.primary obj) at (keys t.children)
    pure at

  -- The loop over the children of a parent, which is nil where no row was found
  retrieve_each : Map Value → Option ℕ → List String → Act (Forest S) (Unit {0})
  unfolding allocate_found first_child
  retrieve_each pk_values parent [] = pure tt
  retrieve_each pk_values parent (name ∷ names) = do
    child_table ←
        or_fail (get_table o.schema name)
          (message ("RetrieveWithChildren: unknown object table for child type " <> name))
    found ←
        wrapped ("RetrieveWithChildren/Retrieve(" <> name <> ")")
          (on_db o (retrieve o name (child_pk_values child_table pk_values)))
    child ← allocate_found found
    at ← or_crash parent
    obj ← load o at
    modify (
        store o at (record obj {
          children = insert name (first_child child (lookup name obj.children)) obj.children;
        }))
    retrieve_each pk_values parent names

  unfoldable pub retrieve_with_children : String → Map Value → Act (Forest S) (Option ℕ)
  unfolding retrieve_each allocate_found
  retrieve_with_children table pk_values = do
    on_db o (check_ctx o)
    t ←
        or_fail (get_table o.schema table)
          (message ("RetrieveWithChildren: unknown object table " <> table))
    found ← wrapped "RetrieveWithChildren/Retrieve" (on_db o (retrieve o table pk_values))
    parent ← allocate_found found
    retrieve_each pk_values parent (keys t.children)
    pure parent
