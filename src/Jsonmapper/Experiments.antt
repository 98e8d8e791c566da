-- ===== src/Jsonmapper/Experiments.antt =====
-- jsonmapper/experiments/mapper.go: objects from a tree of JSON values, which gjson.Unmarshal, a
-- parameter, makes of a text.
pub mod Single
pub mod Paths
pub mod Read
pub mod Laws
pub mod Found
pub mod RoundTrip
pub mod NilChild
pub mod Slots
pub mod Depth
use dyndao.Base.{
  false, String, ◌<>◌, Bool, not, Option, none, some, List, [], ◌∷◌, ◌++◌, length, or_else, ◌==◌,
  if◌then◌else◌,
}
use dyndao.Base.Map.{Map, lookup, insert, keys}
use dyndao.Base.Outcome.{Outcome, message}
use dyndao.Value.{Value, Std, is_nil}
use dyndao.Schema.{Table, Schema}
use dyndao.Object as Object
use dyndao.Object.{Object, Array, new_array, set}
use dyndao.Orm.{Act, pure, fail, crash, lift, ◌>>=◌, proceed}

-- What gjson makes of a JSON value: a scalar, `[]interface{}` or `map[string]interface{}`
mutual
  pub data Json : Type 0 where
    scalar : Value → Json
    array : Items → Json
    object : Fields → Json

  pub data Items : Type 0 where
    no_items : Items
    item : Json → Items → Items

  pub data Fields : Type 0 where
    no_fields : Fields
    field : String → Json → Fields → Fields

-- `delete(m, k)`
delete : {V : Type 0} → String → Map V → Map V
delete k [] = []
delete k ((j, v) ∷ m) = let rest = delete k m in if j == k then rest else (j, v) ∷ rest

find_field : String → Fields → Option Json
find_field k no_fields = none
find_field k (field j v rest) = let found = find_field k rest in if j == k then some v else found

get_path_prefix : String → String → String
get_path_prefix consumed_path tbl = if consumed_path == "" then tbl else consumed_path <> "." <> tbl

-- A new object, at the end of the heap
allocate : Object → Act (List Object) Array
allocate obj heap = pure (new_array (some (length heap))) (heap ++ obj ∷ [])

-- `obj.Children[k] = append(obj.Children[k], objs...)`
add_children : String → Array → Object → Object
add_children k objs obj = record obj {
  children = insert k (or_else [] (lookup k obj.children) ++ objs) obj.children;
}

-- `boxed` is the `interface{}` of a slice or a map.
module _ (s : Std) (boxed : Json → Value) (sch : Schema) where
  value_of : Json → Value
  value_of (scalar v) = v
  value_of v = boxed v

  unfoldable mutual
    unfolding allocate add_children value_of

    pub map_val_to_obj_ary : String → Items → Act (List Object) Array
    map_val_to_obj_ary object_type no_items = pure []
    map_val_to_obj_ary object_type (item (array vals) rest) = map_val_to_obj_ary object_type vals
    map_val_to_obj_ary object_type (item (object m) rest) =
        set_fields (lookup object_type sch.tables) m (Object.new object_type) >>= allocate
    map_val_to_obj_ary object_type (item (scalar v) rest) = map_val_to_obj_ary object_type rest

    -- The loop over the entries of a map
    set_fields : Option Table → Fields → Object → Act (List Object) Object
    set_fields t no_fields obj = pure obj
    set_fields none (field k v rest) obj = crash "nil pointer dereference"
    set_fields (some t) (field k (array vals) rest) obj = elim (lookup k t.children) [
      | none ↦ set_fields (some t) rest (set s k (boxed (array vals)) obj)
      | some child ↦
          (map_val_to_obj_ary k vals >>= λ objs. set_fields (some t) rest (add_children k objs obj))
    ]
    set_fields (some t) (field k v rest) obj = elim (lookup k t.children) [
      | none ↦ set_fields (some t) rest (set s k (value_of v) obj)
      | some child ↦ crash "interface conversion"
    ]

  kv_of : Fields → Map Value
  kv_of no_fields = []
  kv_of (field k v rest) = (k, value_of v) ∷ kv_of rest

  is_null : Json → Bool
  is_null (scalar v) = is_nil v
  is_null v = false

  -- The loop over the schema's tables for a map under the name `k`: what stands in it under a table's
  -- name becomes children, which are made as objects of the type `k`.
  take_children : String → Fields → List String → Object → Act (List Object) Object
  unfolding map_val_to_obj_ary add_children is_null find_field delete
  take_children k m [] obj = pure obj
  take_children k m (name ∷ names) obj = elim (find_field name m) [
    | none ↦ take_children k m names obj
    | some thingy ↦
        if is_null thingy
        then take_children k m names obj
        else (map_val_to_obj_ary k (item thingy no_items) >>= λ objs.
            let grown = add_children name objs obj in
            take_children k m names (record grown { kv = delete name grown.kv }))
  ]

  unmarshal_fields : Fields → Act (List Object) Array
  unfolding take_children kv_of map_val_to_obj_ary allocate
  unmarshal_fields no_fields = pure []
  unmarshal_fields (field k (array vals) rest) = do
    objs ← map_val_to_obj_ary k vals
    more ← unmarshal_fields rest
    pure (objs ++ more)
  unmarshal_fields (field k (object m) rest) = do
    obj ← take_children k m (keys sch.tables) (record (Object.new k) { kv = kv_of m })
    objs ← allocate obj
    more ← unmarshal_fields rest
    pure (objs ++ more)
  unmarshal_fields (field k (scalar v) rest) = unmarshal_fields rest

  unfoldable pub unmarshal_to_objects : Json → Act (List Object) Array
  unfolding unmarshal_fields
  unmarshal_to_objects (object m) = unmarshal_fields m
  unmarshal_to_objects unm = crash "interface conversion"

  unfoldable pub to_objects_from_json : (String → Outcome Json) → String → Act (List Object) Array
  unfolding unmarshal_to_objects
  to_objects_from_json unmarshal json =
      if json == ""
      then fail (message "ToObjectsFromJSON: json parameter is empty")
      else lift (unmarshal json) >>= unmarshal_to_objects

  -- gjson.Unmarshal into an object, and into an array of objects
  unfoldable pub unmarshal_to_object :
      (String → Act (List Object) Object) → String → Act (List Object) Object
  unmarshal_to_object unmarshal json =
      if json == ""
      then fail (message "ToObjectFromJSON: json parameter is empty")
      else unmarshal json

  unfoldable pub to_object_array_from_json :
      (String → Act (List Object) Array) → String → Act (List Object) Array
  to_object_array_from_json unmarshal json =
      if json == ""
      then fail (message "ToObjectsFromJSON: json parameter is empty")
      else unmarshal json
