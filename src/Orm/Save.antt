-- ===== src/Orm/Save.antt =====
pub mod Choice
pub mod Keeps
pub mod Shape
pub mod Clean
-- orm/save.go: `Save` and its two strict variants.
use dyndao.Base.{ℕ, String, ◌<>◌, Bool, true, false, not, Option, none, some, ◌==◌, if◌then◌else◌}
use dyndao.Base.Map.{lookup, contains, entries}
use dyndao.Base.Outcome.{Error, message}
use dyndao.Base.Int.{ℤ, pos}
use dyndao.Schema.{Column, Table, get_table}
use dyndao.Object.{Object, is_dirty}
use dyndao.Orm.{Act, pure, fail, or_fail, gets, ◌>>=◌, ◌>>◌, Session, Orm, on_world, check_ctx}
use dyndao.Orm.Write.{insert, update}

module _ {S : Type 0} (o : Orm S) where
  -- The choice for an object of a known table: a clean object is skipped, and one with or without a
  -- value for its primary key goes on to `has_key` or `no_key`.
  choose : String → Act (Session S) ℤ → Act (Session S) ℤ → Object → Table → Act (Session S) ℤ
  choose name no_key has_key obj t =
      if not (is_dirty obj)
      then pure (pos 0)
      else if t.primary == ""
      then fail (message (name <> ": empty primary key for " <> obj.object_type))
      else elim (lookup t.primary (entries t.columns)) [
        | none ↦
            fail (message (name <> ": empty field " <> t.primary <> " for " <> obj.object_type))
        | some f ↦ if contains f.name obj.kv then has_key else no_key
      ]

  -- What the three functions have in common, whose errors begin with their `name`
  save_by : String → Act (Session S) ℤ → Act (Session S) ℤ → Act (Session S) ℤ
  save_by name no_key has_key = do
    on_world (check_ctx o)
    obj ← gets (λ st. st.object)
    t ←
        or_fail (get_table o.schema obj.object_type)
          (message (name <> ": unknown object table " <> obj.object_type))
    choose name no_key has_key obj t

  unfoldable pub save : Option ℕ → Act (Session S) ℤ
  unfolding save_by choose
  save tx = save_by "Save" (insert o tx) (update o tx)

  -- The text of the object itself (`%v`) is left out of the two errors.
  unfoldable pub save_but_error_if_update : Option ℕ → Act (Session S) ℤ
  unfolding save_by choose
  save_but_error_if_update tx =
      save_by "SaveButErrorIfUpdate" (insert o tx)
        (fail (message "SaveButErrorIfUpdate: ORM was told to expect an Insert for this obj: "))

  unfoldable pub save_but_error_if_insert : Option ℕ → Act (Session S) ℤ
  unfolding save_by choose
  save_but_error_if_insert tx =
      save_by "SaveButErrorIfInsert"
        (fail (message "SaveButErrorIfInsert: ORM was told to expect an Update for this obj: "))
        (update o tx)
