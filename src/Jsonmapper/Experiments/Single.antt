-- ===== src/Jsonmapper/Experiments/Single.antt =====
-- How many objects jsonmapper/experiments/mapper.go makes of an array.
use dyndao.Base.{◌≤◌, String, List, length, arith}
use dyndao.Base.Outcome.{Outcome, ok, err, panic, OnOk}
use dyndao.Value.{Value, Std}
use dyndao.Schema.{Schema}
use dyndao.Object.{Object, new_array}
use dyndao.Orm.{proceed}
use dyndao.Jsonmapper.Experiments.{
  Json, Items, scalar, array, object, no_items, item, allocate, map_val_to_obj_ary,
}

module _ (s : Std) (boxed : Json → Value) (sch : Schema) where
  made_one :
      (r : Outcome Object) (heap : List Object)
      → OnOk (λ objs. length objs ≤ 1) (proceed r allocate heap).0
  unfolding allocate new_array
  made_one (ok obj) heap = omega arith
  made_one (err e) heap = tt
  made_one (panic p) heap = tt

  -- Of an array, whatever it holds and however many values, `mapValToObjAry` makes at most one object:
  -- the rest of the array is dropped.
  pub array_makes_one_object :
      (object_type : String) (vals : Items) (heap : List Object)
      → OnOk (λ objs. length objs ≤ 1) (map_val_to_obj_ary s boxed sch object_type vals heap).0
  unfolding map_val_to_obj_ary
  array_makes_one_object object_type no_items heap = omega arith
  array_makes_one_object object_type (item (array vals) rest) heap =
      array_makes_one_object object_type vals heap
  array_makes_one_object object_type (item (object m) rest) heap = made_one _ _
  array_makes_one_object object_type (item (scalar v) rest) heap =
      array_makes_one_object object_type rest heap
