-- ===== src/Orm/Tree.antt =====
pub mod Rollback
pub mod Fuel
pub mod Keeps
pub mod Shape
pub mod Depth
pub mod Clean
pub mod All
pub mod Handles
pub mod Idle
-- orm/save.go: `recurseAndSave`, `SaveAllInsideTx` and `SaveAll`. The objects of a tree stand in a
-- heap, since a child may be reached from several parents. The recursion takes fuel, and a tree that
-- uses it up counts as a stack overflow: in Go only a cyclic tree recurses without end.
use dyndao.Base.{
  ℕ, zero, suc, String, ◌<>◌, Bool, Option, none, some, List, [], ◌∷◌, get_elem?, set_elem,
  if◌then◌else◌,
}
use dyndao.Base.Map.{Map, lookup, contains, entries}
use dyndao.Base.Outcome.{Error, Outcome, ok, err, panic, message, wrap}
use dyndao.Base.Int.{ℤ, pos}
use dyndao.Value.{Value}
use dyndao.Schema.{Table, get_table}
use dyndao.Object.{Object, Array, get, set}
use dyndao.Orm.{
  Act, pure, fail, crash, or_fail, or_crash, gets, modify, ◌>>=◌, ◌>>◌, proceed, Session, Orm,
  check_ctx,
}
use dyndao.Orm.Save.{save}

pub record Forest (S : Type 0) : Type 0 where
  pub objects : List Object
  pub world : S

abbrev pub error_text : Error → String
error_text (Error.message t) = t
error_text (Error.external t) = t
error_text (Error.wrap e t) = t <> ": " <> error_text e
error_text Error.key_was_missing = "object: key was missing"
error_text Error.value_was_nil = "object: value was nil"

module _ {S : Type 0} (o : Orm S) where
  abbrev pub load : ℕ → Act (Forest S) Object
  load at h = or_crash (get_elem? h.objects at) h

  abbrev pub store : ℕ → Object → Forest S → Forest S
  store at obj h = record h { objects = set_elem h.objects at obj }

  -- A method on the object at an address; what it did to the object stays, also after an error.
  pub on_object : {A : Type 0} → ℕ → Act (Session S) A → Act (Forest S) A
  on_object at m = do
    obj ← load at
    λ h.
        let (r, st) = m (record { object = obj; world = h.world }) in
        (r, record (store at st.object h) { world = st.world })

  abbrev pub on_db : {A : Type 0} → Act S A → Act (Forest S) A
  on_db m h = let (r, w) = m h.world in (r, record h { world = w })

  -- What a child gets of its parent: the value of the parent's primary key, if the child's table has
  -- a column of that name
  pub propagate : Table → Value → ℕ → Act (Forest S) (Unit {0})
  propagate t pk_val at = do
    child ← load at
    child_table ←
        or_fail (lookup child.object_type o.schema.tables)
          (message ("recurseAndSave: Unknown child object type " <> child.object_type))
    if contains t.primary (entries child_table.columns)
        then modify (store at (set o.std t.primary pk_val child))
        else pure tt

  -- The loops over the children, given how a child is saved
  pub save_array : (ℕ → Act (Forest S) ℤ) → Table → Value → Array → Act (Forest S) (Unit {0})
  save_array save_child t pk_val [] = pure tt
  save_array save_child t pk_val (none ∷ rest) = crash "nil pointer dereference"
  save_array save_child t pk_val (some at ∷ rest) = do
    propagate t pk_val at
    save_child at
    save_array save_child t pk_val rest

  pub save_children : (ℕ → Act (Forest S) ℤ) → Table → Value → Map Array → Act (Forest S) (Unit {0})
  unfolding save_array
  save_children save_child t pk_val [] = pure tt
  save_children save_child t pk_val ((name, children) ∷ rest) = do
    save_array save_child t pk_val children
    save_children save_child t pk_val rest

  -- The rows of the object itself are counted, those of its children are not.
  unfoldable pub recurse_and_save : ℕ → Option ℕ → ℕ → Act (Forest S) ℤ
  unfolding on_object propagate save_children
  recurse_and_save zero tx at = crash "stack overflow"
  recurse_and_save (suc fuel) tx at = do
    rows_aff ← on_object at (save o tx)
    obj ← load at
    t ← or_crash (get_table o.schema obj.object_type)
    save_children (recurse_and_save fuel tx) t (get t.primary obj) obj.children
    pure rows_aff

  -- After a failed step: a rollback, whose own error is wrapped around the first
  pub rolled_back : {A : Type 0} → ℕ → Error → Act (Forest S) A
  rolled_back tx e h =
      let (r, w) = o.raw_conn.rollback tx h.world in
      elim r [
        | ok _ ↦ (err e, record h { world = w })
        | err e2 ↦ (err (wrap e (error_text e2)), record h { world = w })
        | panic p ↦ (panic p, record h { world = w })
      ]

  -- `if err != nil { … }` after a call; a panic goes on up, with no rollback.
  abbrev or_rollback : {A : Type 0} → ℕ → Act (Forest S) A → Act (Forest S) A
  or_rollback tx m h =
      let (r, h') = m h in
      elim r [ ok a ↦ (ok a, h') | err e ↦ rolled_back tx e h' | panic p ↦ (panic p, h') ]

  unfoldable pub save_all_inside_tx : ℕ → ℕ → ℕ → Act (Forest S) ℤ
  unfolding rolled_back
  save_all_inside_tx fuel tx at = do
    on_db (check_ctx o)
    or_rollback tx (recurse_and_save fuel (some tx) at)

  unfoldable pub save_all : ℕ → ℕ → Act (Forest S) ℤ
  unfolding rolled_back
  save_all fuel at = do
    on_db (check_ctx o)
    tx ← on_db o.raw_conn.begin_tx
    rows_aff ← or_rollback tx (save_all_inside_tx fuel tx at)
    or_rollback tx (on_db (o.raw_conn.commit tx))
    pure rows_aff
