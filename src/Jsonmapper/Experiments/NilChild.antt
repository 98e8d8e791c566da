-- ===== src/Jsonmapper/Experiments/NilChild.antt =====
-- `ToJSONFromObject` of jsonmapper/experiments/mapper.go on an object with a nil child.
use dyndao.Base.{
  ℕ, zero, suc, String, Bool, true, false, ◌||◌, none, some, List, [], ◌∷◌, ◌≡◌, refl, arith,
}
use dyndao.Base.Map.{Map}
use dyndao.Base.Outcome.{Outcome, is_ok}
use dyndao.Schema.{Column, Schema}
use dyndao.Object.{Object, Array}
use dyndao.Jsonmapper.Experiments.Paths.{
  Packages, set_array, set_children, to_json_from_object, in_child,
}

abbrev pub has_nil : Array → Bool
has_nil [] = false
has_nil (none ∷ at) = true
has_nil (some i ∷ at) = has_nil at

abbrev pub any_nil : Map Array → Bool
any_nil [] = false
any_nil ((k, at) ∷ children) = has_nil at || any_nil children

module _ (go : Packages) (source : Column → String) where
  set_array-has_nil :
      (write : Object → Outcome String) (heap : List Object) (root_path k : String) (v at : Array)
      (json : String)
      → has_nil at ≡ true
      → is_ok (set_array go source write heap root_path k v at json) ≡ false
  unfolding set_array in_child
  set_array-has_nil write heap root_path k v [] json h = cc
  set_array-has_nil write heap root_path k v (none ∷ at) json h = refl
  set_array-has_nil write heap root_path k v (some i ∷ at) json h =
      grind (arith, h, set_array-has_nil write heap root_path k v at)

  set_children-any_nil :
      (write : Object → Outcome String) (heap : List Object) (root_path : String)
      (children : Map Array) (json : String)
      → any_nil children ≡ true
      → is_ok (set_children go source write heap root_path children json) ≡ false
  unfolding set_children
  set_children-any_nil write heap root_path [] json h = cc
  set_children-any_nil write heap root_path ((k, at) ∷ children) json h = grind (
    arith,
    h,
    set_array-has_nil write heap root_path k at at json,
    set_children-any_nil write heap root_path children,
  )

  -- An object with a nil child is not written, with whatever fuel and wherever it is written to.
  pub to_json-any_nil :
      (sch : Schema) (fuel : ℕ) (heap : List Object) (obj : Object) (json root_path : String)
      (set_root : Bool)
      → any_nil obj.children ≡ true
      → is_ok (to_json_from_object go source sch fuel heap obj json root_path set_root) ≡ false
  unfolding to_json_from_object
  to_json-any_nil sch zero heap obj json root_path set_root h = refl
  to_json-any_nil sch (suc f) heap obj json root_path set_root h =
      grind (arith, set_children-any_nil)
