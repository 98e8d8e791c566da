-- ===== src/Jsonmapper/Experiments/Read.antt =====
-- jsonmapper/experiments/mapper.go: `ToObjectFromJSON`, which reads an object under a path of a JSON
-- text, and its children under the paths below.
use dyndao.Base.{
  ℕ, zero, suc, String, ◌<>◌, Option, none, some, List, [], ◌∷◌, ◌++◌, map, length, ltb, set_elem,
  or_else, ◌==◌, if◌then◌else◌,
}
use dyndao.Base.Map.{Map, lookup, insert, entries}
use dyndao.Base.Outcome.{Outcome, ok, err, panic, message}
use dyndao.Value.{Value, Std}
use dyndao.Schema.{Column, ChildTable, Schema}
use dyndao.Object as Object
use dyndao.Object.{Object, Array, make_array, set}
use dyndao.Orm.{Act, pure, crash, lift, ◌>>=◌}
use dyndao.Jsonmapper.Experiments.{get_path_prefix}
use dyndao.Jsonmapper.Experiments.Paths.{Packages, in_child}

-- A new object, at the end of the heap
abbrev pub store : Object → Act (List Object) ℕ
store obj heap = (ok (length heap), heap ++ obj ∷ [])

-- The loop that lists what is to be read: a key, and the path of its value
unfoldable pub list_sources : (Column → String) → String → Map Column → Outcome (Map String)
list_sources source path_prefix [] = ok []
list_sources source path_prefix ((k, field) ∷ fields) =
    if source field == ""
    then err (message ("ToObjectFromJSON: missing Source for field " <> k))
    else elim (list_sources source path_prefix fields) [
      | ok more ↦ ok ((k, path_prefix <> "." <> source field) ∷ more)
      | err e ↦ err e
      | panic p ↦ panic p
    ]

-- The loop over the values, in which the i-th is the value of `keys[i]`
unfoldable pub set_found : Std → List String → List (Option Value) → Object → Outcome Object
unfolding set
set_found s keys [] obj = ok obj
set_found s [] (none ∷ values) obj = set_found s [] values obj
set_found s [] (some v ∷ values) obj = panic "index out of range"
set_found s (k ∷ keys) (none ∷ values) obj = set_found s keys values obj
set_found s (k ∷ keys) (some v ∷ values) obj = set_found s keys values (set s k v obj)

-- `if obj.Children[k] == nil { obj.Children[k] = make(object.Array, n) }; obj.Children[k][i] = child`
unfoldable pub put_child : ℕ → ℕ → String → ℕ → Object → Outcome Object
unfolding lookup insert make_array
put_child n i k child obj =
    let slots = or_else (make_array n) (lookup k obj.children) in
    if ltb i (length slots)
    then ok (record obj { children = insert k (set_elem slots i (some child)) obj.children })
    else panic "index out of range"

-- The loop over the child tables, of which there are `n`; `read` is the recursive call, and `print`
-- is fmt's.
unfoldable pub walk_children :
    (ChildTable → String)
    → (String → Act (List Object) Object)
    → ℕ
    → ℕ
    → Map ChildTable
    → Object
    → Act (List Object) Object
unfolding put_child in_child
walk_children print read n i [] obj = pure obj
walk_children print read n i ((k, v) ∷ tables) obj = do
  child ← λ heap. let (r, after) = read k heap in (in_child k (print v) r, after)
  at ← store child
  grown ← lift (put_child n i k at obj)
  walk_children print read n (suc i) tables grown

module _ (s : Std) (go : Packages) (source : Column → String) (sch : Schema) where
  unfoldable pub to_object_from_json : ℕ → String → String → String → Act (List Object) Object
  unfolding lookup list_sources set_found walk_children get_path_prefix
  to_object_from_json zero consumed_path tbl json = crash "stack overflow"
  to_object_from_json (suc f) consumed_path tbl json = elim (lookup tbl sch.tables) [
    | none ↦ crash "nil pointer dereference"
    | some table ↦ (do
      found ← lift (list_sources source (get_path_prefix consumed_path tbl) (entries table.columns))
      obj ← lift (
          set_found s (map (λ e. e.0) found) (go.get_many json (map (λ e. e.1) found))
            (Object.new tbl))
      walk_children go.print_child_table (λ k. to_object_from_json f tbl k json)
          (length table.children) 0 table.children obj)
  ]
