-- ===== src/Jsonmapper/Experiments/Paths.antt =====
-- jsonmapper/experiments/mapper.go: objects written to a JSON text and read from it, column by column,
-- under the path that each column's `Source` names. schema.Column has no such field: it is a
-- parameter. The recursion takes fuel: only children that form a cycle need more than any number.
use dyndao.Base.{
  ℕ, zero, suc, String, ◌<>◌, Bool, false, Option, none, some, List, [], ◌∷◌, get_elem?, ◌==◌,
  if◌then◌else◌,
}
use dyndao.Base.Map.{Map, lookup, entries}
use dyndao.Base.Outcome.{Outcome, ok, err, panic, message, ◌>>=◌}
use dyndao.Value.{Value}
use dyndao.Schema.{Column, ChildTable, Schema}
use dyndao.Object.{Object, Array}
use dyndao.Orm.Tree.{error_text}

-- What is used of sjson, gjson and fmt. A result of `GetMany` is its `Value()`, or none if it does not
-- exist.
pub record Packages : Type 0 where
  pub set_path : String → String → Value → Outcome String  -- sjson.Set(json, path, v)
  pub set_raw : String → String → String → Outcome String  -- sjson.SetRaw(json, path, raw)
  pub get_many : String → List String → List (Option Value)  -- gjson.GetMany(json, paths...)
  pub print_array : Array → String  -- fmt.Sprintf("%v", v)
  pub print_child_table : ChildTable → String

-- `rootPath` after the test of `setRootPath`
unfoldable pub root_path_of : String → String → Bool → String
root_path_of tbl root_path set_root_path =
    if set_root_path
    then (if root_path == "" then tbl else root_path <> "." <> tbl) <> "."
    else root_path

-- An error with a child is built into another; `v` is its `%v`.
unfoldable pub in_child : {A : Type 0} → String → String → Outcome A → Outcome A
in_child k v (ok a) = ok a
in_child k v (err e) = err (
    message
      ("ToObjectFromJSON: error " <> error_text e <> " with child [k:" <> k <> " v:" <> v <> "]"))
in_child k v (panic p) = panic p

module _ (go : Packages) (source : Column → String) where
  -- The loop over `obj.KV`
  unfoldable pub set_values : Map Column → String → Map Value → String → Outcome String
  unfolding lookup
  set_values columns root_path [] root_json = ok root_json
  set_values columns root_path ((k, v) ∷ kv) root_json = elim (lookup k columns) [
    | none ↦ err (message ("ToJSONFromObject: empty field for field " <> k))
    | some field ↦ do
      changed ← go.set_path root_json (root_path <> source field) v
      set_values columns root_path kv changed
  ]

  -- The loop over the children of one type; `write` is the recursive call.
  unfoldable pub set_array :
      (Object → Outcome String)
      → List Object
      → String
      → String
      → Array
      → Array
      → String
      → Outcome String
  unfolding in_child
  set_array write heap root_path k v [] root_json = ok root_json
  set_array write heap root_path k v (none ∷ at) root_json = panic "nil pointer dereference"
  set_array write heap root_path k v (some i ∷ at) root_json = elim (get_elem? heap i) [
    | none ↦ panic "nil pointer dereference"
    | some child_obj ↦ do
      child_json ← in_child k (go.print_array v) (write child_obj)
      changed ← in_child k (go.print_array v) (go.set_raw root_json (root_path <> k) child_json)
      set_array write heap root_path k v at changed
  ]

  -- The loop over `obj.Children`
  unfoldable pub set_children :
      (Object → Outcome String) → List Object → String → Map Array → String → Outcome String
  unfolding set_array
  set_children write heap root_path [] root_json = ok root_json
  set_children write heap root_path ((k, v) ∷ children) root_json = do
    changed ← set_array write heap root_path k v v root_json
    set_children write heap root_path children changed

  unfoldable pub to_json_from_object :
      Schema → ℕ → List Object → Object → String → String → Bool → Outcome String
  unfolding lookup set_values set_children root_path_of
  to_json_from_object sch zero heap obj root_json root_path set_root_path = panic "stack overflow"
  to_json_from_object sch (suc f) heap obj root_json root_path set_root_path =
      elim (lookup obj.object_type sch.tables) [
        | none ↦ panic "nil pointer dereference"
        | some table ↦
            let path = root_path_of obj.object_type root_path set_root_path in
            (set_values (entries table.columns) path obj.kv
                (if root_json == "" then "{}" else root_json)
              >>= set_children (λ child. to_json_from_object sch f heap child "" "" false) heap path
                  obj.children)
      ]
