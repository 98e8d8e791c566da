-- ===== src/Orm/Write.antt =====
pub mod After
pub mod Shape
pub mod Succeeds
pub mod Updates
pub mod Handles
-- orm/insert.go, orm/update.go and orm/delete.go, and the helpers of orm/save.go that they share.
-- Tracing output is left out.
use dyndao.Base.{
  ℕ, String, ◌<>◌, Bool, true, false, not, ◌&&◌, Option, none, some, List, [], ◌∷◌, ◌++◌,
  if◌then◌else◌,
}
use dyndao.Base.Outcome.{Error, Outcome, ok, err, panic, message}
use dyndao.Base.Outcome as Outcome
use dyndao.Base.Int.{ℤ, pos, eqb_ℤ}
use dyndao.Value.{
  Value, nil, int64, null_string, null_string_ptr, time, time_ptr, sql_value, sql_value_ptr, named,
  out,
}
use dyndao.Schema.{Table, get_table}
use dyndao.Object.{Object, set_core, mark_dirty, reset_changed_columns}
use dyndao.Core.Insert.{binding_insert}
use dyndao.Core.Update.{binding_update}
use dyndao.Core.Statements.{binding_delete}
use dyndao.Orm.{
  Act, pure, fail, lift, or_fail, or_crash, wrapped, deferred, gets, modify, ◌>>=◌, ◌>>◌, proceed,
  ExecResult, Database, Session, Orm, call_before_create_hook_if_needed,
  call_after_create_hook_if_needed, call_before_update_hook_if_needed,
  call_after_update_hook_if_needed, on_world, check_ctx, stmt_from_db_or_tx, modify_object,
}

-- `reflect.Indirect(reflect.ValueOf(arg)).Interface()`, which panics on nil
unfoldable pub maybe_dereference_arg : Value → Outcome Value
maybe_dereference_arg nil = panic "reflect: call of reflect.Value.Interface on zero Value"
maybe_dereference_arg (time_ptr _ none) =
    panic "reflect: call of reflect.Value.Interface on zero Value"
maybe_dereference_arg (time_ptr _ (some t)) = ok (time t)
maybe_dereference_arg (null_string_ptr _ t) = ok (null_string t)
maybe_dereference_arg (sql_value_ptr _ t) = ok (sql_value t)
maybe_dereference_arg v = ok v

pub dereference_all : List Value → Outcome (List Value)
unfolding maybe_dereference_arg
dereference_all [] = ok []
dereference_all (v ∷ vs) =
    Outcome.◌>>=◌ (maybe_dereference_arg v)
      λ w. Outcome.◌>>=◌ (dereference_all vs) λ ws. ok (w ∷ ws)

-- The new key: the id that the driver reports, unless a `sql.Out` argument received another
unfoldable pub new_id : ExecResult → Outcome ℤ
new_id res = elim res.last_insert_id [
  | ok id ↦ ok (if eqb_ℤ res.out_id (pos 0) then id else res.out_id)
  | err e ↦ if eqb_ℤ res.out_id (pos 0) then err e else ok res.out_id
  | panic p ↦ panic p
]

module _ {S : Type 0} (o : Orm S) where
  -- The object is recently saved: clean, with no recorded changes.
  abbrev mark_saved : Act (Session S) (Unit {0})
  mark_saved = modify_object (λ obj. reset_changed_columns (mark_dirty false obj))

  -- Only where the caller does not supply the key
  abbrev set_new_id : Table → ExecResult → Act (Session S) (Unit {0})
  set_new_id t res =
      if t.caller_supplies_pk
      then pure tt
      else lift (new_id res) >>= λ id. modify_object (set_core t.primary (int64 id))

  -- What `Insert` does with its statement, which is closed at the end
  insert_with : Table → List Value → ℕ → Act (Session S) ℤ
  unfolding dereference_all new_id
  insert_with t bind_args stmt = do
    lift (dereference_all bind_args)
    res ← on_world (wrapped "Insert/ExecContext" (o.raw_conn.exec stmt bind_args))
    set_new_id t res
    rows_aff ← lift res.rows_affected
    call_after_create_hook_if_needed o
    mark_saved
    pure rows_aff

  -- The arguments: for Oracle a `sql.Out` comes last, under the primary key of the object's table
  insert_args : Table → List Value → Act (Session S) (List Value)
  insert_args t bind_args st =
      if not t.caller_supplies_pk && o.sql_gen.fix_last_insert_id_bug
      then (or_crash (get_table o.schema st.object.object_type) >>= λ t'.
            pure (bind_args ++ named t'.primary out ∷ []))
          st
      else pure bind_args st

  -- What follows the hook
  insert_hooked : Option ℕ → Table → Act (Session S) ℤ
  unfolding insert_with insert_args
  insert_hooked tx t = do
    hooked ← gets (λ st. st.object)
    (sql, args) ←
        lift (
          binding_insert o.remove_nils o.std o.sql_gen o.schema hooked.object_type (some hooked.kv))
    bind_args ← insert_args t args
    stmt ← on_world (stmt_from_db_or_tx o tx sql)
    deferred (λ st. record st { world = o.raw_conn.close_stmt stmt st.world })
        (insert_with t bind_args stmt)

  unfoldable pub insert : Option ℕ → Act (Session S) ℤ
  unfolding insert_hooked
  insert tx = do
    on_world (check_ctx o)
    obj ← gets (λ st. st.object)
    t ←
        or_fail (get_table o.schema obj.object_type)
          (message ("Insert: unknown object table " <> obj.object_type))
    call_before_create_hook_if_needed o
    insert_hooked tx t

  update_with : List Value → ℕ → Act (Session S) ℤ
  unfolding dereference_all
  update_with all_bind stmt = do
    new_all_bind ← lift (dereference_all all_bind)
    res ← on_world (wrapped "Update" (o.raw_conn.exec stmt new_all_bind))
    rows_aff ← lift res.rows_affected
    call_after_update_hook_if_needed o
    mark_saved
    pure rows_aff

  update_hooked : Option ℕ → Act (Session S) ℤ
  unfolding update_with
  update_hooked tx = do
    hooked ← gets (λ st. st.object)
    (sql, bind_args, bind_where) ←
        lift (binding_update o.remove_nils o.std o.sql_gen o.schema hooked)
    stmt ← on_world (stmt_from_db_or_tx o tx sql)
    deferred (λ st. record st { world = o.raw_conn.close_stmt stmt st.world })
        (update_with (bind_args ++ bind_where) stmt)

  unfoldable pub update : Option ℕ → Act (Session S) ℤ
  unfolding update_hooked
  update tx = do on_world (check_ctx o); call_before_update_hook_if_needed o; update_hooked tx

  delete_with : List Value → ℕ → Act (Session S) ℤ
  delete_with bind_where stmt = do
    res ← on_world (wrapped "Delete" (o.raw_conn.exec stmt bind_where))
    rows_aff ← lift res.rows_affected
    mark_saved
    pure rows_aff

  unfoldable pub delete : Option ℕ → Act (Session S) ℤ
  unfolding delete_with
  delete tx = do
    on_world (check_ctx o)
    obj ← gets (λ st. st.object)
    or_fail (get_table o.schema obj.object_type)
        (message ("Delete: unknown object table " <> obj.object_type))
    (sql, bind_where) ← lift (binding_delete o.sql_gen o.schema obj)
    stmt ← on_world (stmt_from_db_or_tx o tx sql)
    deferred (λ st. record st { world = o.raw_conn.close_stmt stmt st.world })
        (delete_with bind_where stmt)
