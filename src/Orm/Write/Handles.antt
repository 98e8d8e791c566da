-- ===== src/Orm/Write/Handles.antt =====
-- The statements that `Insert`, `Update` and `Delete` prepare are closed again.
use dyndao.Base.{ℕ, Option, List, ◌<>◌, ◌≡◌, refl, arith}
use dyndao.Base.Int.{ℤ}
use dyndao.Base.Map.{Map}
use dyndao.Value.{Value}
use dyndao.Base.Outcome.{Error, message}
use dyndao.Object.{Object}
use dyndao.Schema.{Table, get_table}
use dyndao.Orm.{
  Act, gets, or_fail, ◌>>◌, ◌>>=◌, on_world, Session, Orm, HookFunction, call_hook_if_needed,
  check_ctx, stmt_from_db_or_tx,
}
use dyndao.Orm.Keeps.{Keeps, bind-Keeps, or_fail-Keeps}
use dyndao.Orm.Handles.{Counts}
use dyndao.Orm.Write.{insert, insert_hooked, update, update_hooked, delete, delete_with}

module _ {S : Type 0} (o : Orm S) (open_stmts : S → ℕ) (counts : Counts o.raw_conn open_stmts) where
  abbrev pub open_of : Session S → ℕ
  open_of st = open_stmts st.world

  delete_with-open :
      (args : List Value) (stmt : ℕ) (st : Session S)
      → open_stmts (delete_with o args stmt st).1.world ≡ open_stmts st.world
  unfolding delete_with
  delete_with-open args stmt st = ground (arith, counts.count_exec stmt args st.world)

  delete-open :
      (tx : Option ℕ) (st : Session S) → open_stmts (delete o tx st).1.world ≡ open_stmts st.world
  unfolding delete check_ctx stmt_from_db_or_tx
  delete-open tx st = grind (arith, counts.count_exec, counts.count_prepare, counts.count_close)

  -- Hooks that leave no statement open
  abbrev pub KeepsCount : Map (HookFunction S) → Type 0
  KeepsCount hooks =
      (st : Session S) → open_stmts (call_hook_if_needed o hooks st).1.world ≡ open_stmts st.world

  update_hooked-open :
      (tx : Option ℕ) → KeepsCount o.after_update_hooks → Keeps open_of (update_hooked o tx)
  unfolding update_hooked stmt_from_db_or_tx
  update_hooked-open tx after st =
      grind (arith, after, counts.count_exec, counts.count_prepare, counts.count_close)

  insert_hooked-open :
      (tx : Option ℕ) (t : Table)
      → KeepsCount o.after_create_hooks
      → Keeps open_of (insert_hooked o tx t)
  unfolding insert_hooked stmt_from_db_or_tx
  insert_hooked-open tx t after st =
      grind (arith, after, counts.count_exec, counts.count_prepare, counts.count_close)

  pub live-open : Keeps open_of (on_world (check_ctx o))
  unfolding check_ctx
  live-open st = ground arith

  pub update-open :
      (tx : Option ℕ)
      → KeepsCount o.before_update_hooks
      → KeepsCount o.after_update_hooks
      → Keeps open_of (update o tx)
  unfolding update
  update-open tx before after =
      bind-Keeps open_of (on_world (check_ctx o))
        (λ u. call_hook_if_needed o o.before_update_hooks >> update_hooked o tx) live-open
        λ u.
          bind-Keeps open_of (call_hook_if_needed o o.before_update_hooks) (λ v. update_hooked o tx)
            before (λ v. update_hooked-open tx after)

  pub insert-open :
      (tx : Option ℕ)
      → KeepsCount o.before_create_hooks
      → KeepsCount o.after_create_hooks
      → Keeps open_of (insert o tx)
  unfolding insert
  insert-open tx before after =
      let rest : Table → Act (Session S) ℤ =
        λ t. call_hook_if_needed o o.before_create_hooks >> insert_hooked o tx t in
      let unknown : Object → Error =
        λ obj. message ("Insert: unknown object table " <> obj.object_type) in
      let found : Object → Act (Session S) ℤ =
        λ obj. or_fail (get_table o.schema obj.object_type) (unknown obj) >>= rest in
      bind-Keeps open_of (on_world (check_ctx o)) (λ u. gets (λ s. s.object) >>= found) live-open
        λ u.
          bind-Keeps open_of (gets (λ s. s.object)) found (λ s. refl)
            λ obj.
              bind-Keeps open_of (or_fail (get_table o.schema obj.object_type) (unknown obj)) rest
                (or_fail-Keeps open_of (get_table o.schema obj.object_type) (unknown obj))
                λ t.
                  bind-Keeps open_of (call_hook_if_needed o o.before_create_hooks)
                    (λ v. insert_hooked o tx t) before (λ v. insert_hooked-open tx t after)

  -- With a driver that counts its open statements, and hooks that leave their number alone, `Insert`,
  -- `Update` and `Delete` leave as many statements open as there were, however they end.
  pub writes_close_statements :
      (tx : Option ℕ) (st : Session S)
      → KeepsCount o.before_create_hooks
      → KeepsCount o.after_create_hooks
      → KeepsCount o.before_update_hooks
      → KeepsCount o.after_update_hooks
      → (open_stmts (insert o tx st).1.world ≡ open_stmts st.world)
        × (open_stmts (update o tx st).1.world ≡ open_stmts st.world)
        × (open_stmts (delete o tx st).1.world ≡ open_stmts st.world)
  writes_close_statements tx st before_create after_create before_update after_update = (
    insert-open tx before_create after_create st,
    update-open tx before_update after_update st,
    delete-open tx st,
  )
