-- ===== src/Orm/Write/Shape.antt =====
-- The children of an object while `Insert` and `Update` (orm/insert.go, orm/update.go) write the object itself.
use dyndao.Base.{ℕ, ◌≡◌, refl, arith, String, Option, ◌<>◌}
use dyndao.Base.Map.{Map}
use dyndao.Base.Int.{ℤ}
use dyndao.Base.Outcome.{Error, message}
use dyndao.Value.{Value, Std}
use dyndao.Object.{Object, Array, set, set_core, mark_dirty, reset_changed_columns}
use dyndao.Schema.{Table, get_table}
use dyndao.Orm.{
  Act, gets, or_fail, ◌>>=◌, ◌>>◌, on_world, Session, Orm, HookFunction, call_hook_if_needed,
  check_ctx, stmt_from_db_or_tx,
}
use dyndao.Orm.Keeps.{Keeps, bind-Keeps, or_fail-Keeps}
use dyndao.Orm.Write.{insert, insert_hooked, update, update_hooked}

abbrev pub children_of : {S : Type 0} → Session S → Map Array
children_of st = st.object.children

-- Hooks that leave the children of their object in place
abbrev pub KeepsChildren : {S : Type 0} → Orm S → Map (HookFunction S) → Type 0
KeepsChildren o hooks = Keeps children_of (call_hook_if_needed o hooks)

pub record TreeHooks (S : Type 0) (o : Orm S) : Type 0 where
  pub before_create : KeepsChildren o o.before_create_hooks
  pub after_create : KeepsChildren o o.after_create_hooks
  pub before_update : KeepsChildren o o.before_update_hooks
  pub after_update : KeepsChildren o o.after_update_hooks

pub set-children :
    (s : Std) (k : String) (v : Value) (obj : Object) → (set s k v obj).children ≡ obj.children
unfolding set
set-children s k v obj = ground arith

module _ {S : Type 0} (o : Orm S) (hooks : TreeHooks S o) where
  pub live-children : Keeps children_of (on_world (check_ctx o))
  unfolding check_ctx
  live-children st = ground arith

  update_hooked-children : (tx : Option ℕ) → Keeps children_of (update_hooked o tx)
  unfolding update_hooked stmt_from_db_or_tx mark_dirty reset_changed_columns
  update_hooked-children tx st = grind (arith, hooks.after_update)

  insert_hooked-children : (tx : Option ℕ) (t : Table) → Keeps children_of (insert_hooked o tx t)
  unfolding insert_hooked stmt_from_db_or_tx mark_dirty reset_changed_columns set_core
  insert_hooked-children tx t st = grind (arith, hooks.after_create)

  pub update-children : (tx : Option ℕ) → Keeps children_of (update o tx)
  unfolding update
  update-children tx =
      bind-Keeps children_of (on_world (check_ctx o))
        (λ u. call_hook_if_needed o o.before_update_hooks >> update_hooked o tx) live-children
        λ u.
          bind-Keeps children_of (call_hook_if_needed o o.before_update_hooks)
            (λ v. update_hooked o tx) hooks.before_update (λ v. update_hooked-children tx)

  pub insert-children : (tx : Option ℕ) → Keeps children_of (insert o tx)
  unfolding insert
  insert-children tx =
      let rest : Table → Act (Session S) ℤ =
        λ t. call_hook_if_needed o o.before_create_hooks >> insert_hooked o tx t in
      let unknown : Object → Error =
        λ obj. message ("Insert: unknown object table " <> obj.object_type) in
      let found : Object → Act (Session S) ℤ =
        λ obj. or_fail (get_table o.schema obj.object_type) (unknown obj) >>= rest in
      bind-Keeps children_of (on_world (check_ctx o)) (λ u. gets (λ s. s.object) >>= found)
        live-children
        λ u.
          bind-Keeps children_of (gets (λ s. s.object)) found (λ s. refl)
            λ obj.
              bind-Keeps children_of (or_fail (get_table o.schema obj.object_type) (unknown obj))
                rest (or_fail-Keeps children_of (get_table o.schema obj.object_type) (unknown obj))
                λ t.
                  bind-Keeps children_of (call_hook_if_needed o o.before_create_hooks)
                    (λ v. insert_hooked o tx t) hooks.before_create
                    (λ v. insert_hooked-children tx t)
