-- ===== src/Orm/Upsert.antt =====
pub mod Outcomes
-- orm/find_or_create.go and orm/create_or_update.go. A result is the number of rows and the object,
-- which is none for nil.
use dyndao.Base.{ℕ, String, ◌<>◌, Option, none, some, List, [], ◌∷◌, if◌then◌else◌}
use dyndao.Base.Map.{Map, lookup}
use dyndao.Base.Outcome.{Error, Outcome, ok, err, panic, message}
use dyndao.Base.Int.{ℤ, pos, eqb_ℤ}
use dyndao.Value.{Value, Std}
use dyndao.Object as Object
use dyndao.Object.{Object, set}
use dyndao.Orm.{
  Act, pure, fail, crash, gets, ◌>>=◌, ◌>>◌, proceed, Session, Orm, on_world, check_ctx,
}
use dyndao.Orm.Load.{retrieve_tx}
use dyndao.Orm.Write.{insert, update}

-- `obj := object.New(typ); obj.KV = createKV`
abbrev pub made : String → Map Value → Object
made typ create_kv = record (Object.new typ) { kv = create_kv }

module _ {S : Type 0} (o : Orm S) where
  -- A method on an object of this function's own: the result comes with what became of the object.
  abbrev on_own : {A : Type 0} → Object → Act (Session S) A → Act S (A × Object)
  on_own obj m w =
      let (r, st) = m (record { object = obj; world = w }) in
      proceed r (λ a. pure (a, st.object)) st.world

  -- The parameter `obj` is overwritten by what RetrieveTx returns, so that Insert is called with nil
  -- where there is no row: it checks the context and then reads the type of nil.
  unfoldable pub find_or_create_tx : Option ℕ → Object → Act S (ℤ × Option Object)
  find_or_create_tx tx obj = do
    found ← retrieve_tx o tx obj.object_type obj.kv
    elim found [
      | none ↦ (check_ctx o >> crash "nil pointer dereference")
      | some row ↦ pure (pos 0, some row)
    ]

  unfoldable pub find_or_create : Object → Act S (ℤ × Option Object)
  find_or_create obj = find_or_create_tx none obj

  -- The last step of the functions below: no rows are an error.
  abbrev some_rows : String → ℤ → Option Object → Act S (ℤ × Option Object)
  some_rows text rows obj = if eqb_ℤ rows (pos 0) then fail (message text) else pure (rows, obj)

  unfoldable pub find_or_create_kv_tx :
      Option ℕ → String → Map Value → Map Value → Act S (ℤ × Option Object)
  find_or_create_kv_tx tx typ query_kv create_kv = do
    found ← retrieve_tx o tx typ query_kv
    elim found [
      | none ↦
          (on_own (made typ create_kv) (insert o tx) >>= λ (rows, obj).
          some_rows "FindOrCreateKVTx: numRows was 0 when expecting Insert" rows (some obj))
      | some row ↦ pure (pos 0, some row)
    ]

  unfoldable pub find_or_create_kv : String → Map Value → Map Value → Act S (ℤ × Option Object)
  find_or_create_kv typ query_kv create_kv = find_or_create_kv_tx none typ query_kv create_kv

  -- The caller's object is inserted or updated, and returned.
  unfoldable pub create_or_update_tx : Option ℕ → Act (Session S) (ℤ × Object)
  create_or_update_tx tx = do
    obj ← gets (λ st. st.object)
    found ← on_world (retrieve_tx o tx obj.object_type obj.kv)
    (rows, op_type) ← elim found [
      | none ↦ (insert o tx >>= λ n. pure (n, "Insert"))
      | some row ↦ (update o tx >>= λ n. pure (n, "Update"))
    ]
    if eqb_ℤ rows (pos 0)
        then fail (message ("CreateOrUpdateTx: numRows was 0 when expecting " <> op_type))
        else gets (λ st. (rows, st.object))

  unfoldable pub create_or_update : Act (Session S) (ℤ × Object)
  create_or_update = create_or_update_tx none

  unfoldable pub create_or_update_kv_tx :
      Option ℕ → String → Map Value → Map Value → Act S (ℤ × Option Object)
  create_or_update_kv_tx tx typ query_kv create_kv = do
    found ← retrieve_tx o tx typ query_kv
    elim found [
      | none ↦
          (on_own (made typ create_kv) (insert o tx) >>= λ (rows, obj).
          some_rows "CreateOrUpdateKVTx: numRows was 0 when expecting Insert" rows (some obj))
      | some row ↦
          (on_own (made typ create_kv) (update o tx) >>= λ (rows, obj).
          some_rows "CreateOrUpdateKVTx: numRows was 0 when expecting Update" rows (some obj))
    ]

  unfoldable pub create_or_update_kv : String → Map Value → Map Value → Act S (ℤ × Option Object)
  create_or_update_kv typ query_kv create_kv = create_or_update_kv_tx none typ query_kv create_kv

  -- `for _, k := range beforeUpdateCopyColumns`
  copy_columns : Map Value → List String → Object → Object
  copy_columns create_kv [] obj = obj
  copy_columns create_kv (k ∷ ks) obj =
      copy_columns create_kv ks
        (elim (lookup k create_kv) [ none ↦ obj | some v ↦ set o.std k v obj ])

  -- After an update, the object that is returned is nil.
  unfoldable pub create_or_update_kv_hook_update :
      Option ℕ → String → Map Value → Map Value → List String → Act S (ℤ × Option Object)
  unfolding copy_columns
  create_or_update_kv_hook_update tx typ query_kv create_kv copied = do
    found ← retrieve_tx o tx typ query_kv
    elim found [
      | none ↦
          (on_own (made typ create_kv) (insert o tx) >>= λ (rows, obj).
          some_rows "createOrUpdateAssign: numRows was 0 when expecting Insert" rows (some obj))
      | some row ↦
          (on_own (copy_columns create_kv copied row) (update o tx) >>= λ (rows, obj).
          some_rows "createOrUpdateAssign: numRows was 0 when expecting Update" rows none)
    ]
