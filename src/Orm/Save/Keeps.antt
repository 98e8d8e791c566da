-- ===== src/Orm/Save/Keeps.antt =====
-- What `Save` of orm/save.go leaves alone, if `Insert` and `Update` do.
use dyndao.Base.{ℕ, String, ◌<>◌, ◌==◌, not, if◌then◌else◌, refl, Option, none, some}
use dyndao.Base.Map.{lookup, contains, entries}
use dyndao.Base.Int.{ℤ, pos}
use dyndao.Base.Outcome.{Error, message}
use dyndao.Object.{Object, is_dirty}
use dyndao.Schema.{Table, Column, get_table}
use dyndao.Orm.{Act, pure, fail, gets, or_fail, ◌>>=◌, Session, Orm, on_world, check_ctx}
use dyndao.Orm.Keeps.{Keeps, bind-Keeps, or_fail-Keeps, if-Keeps}
use dyndao.Orm.Write.{insert, update}
use dyndao.Orm.Save.{save, save_by, choose}

module _ {S C : Type 0} (o : Orm S) (part : Session S → C) (name : String)
    (no_key has_key : Act (Session S) ℤ) (inserts : Keeps part no_key)
    (updates : Keeps part has_key) where
  -- The end of `choose`, where the column of the primary key was looked up
  abbrev keyed : Option Column → Error → Object → Act (Session S) ℤ
  keyed found missing obj = elim found [
    | none ↦ fail missing
    | some f ↦ if contains f.name obj.kv then has_key else no_key
  ]

  keyed-Keeps :
      (found : Option Column) (missing : Error) (obj : Object)
      → Keeps part (keyed found missing obj)
  keyed-Keeps none missing obj = λ st. refl
  keyed-Keeps (some f) missing obj =
      if-Keeps part (contains f.name obj.kv) has_key no_key updates inserts

  choose-Keeps : (obj : Object) (t : Table) → Keeps part (choose o name no_key has_key obj t)
  unfolding choose
  choose-Keeps obj t =
      let empty = message (name <> ": empty primary key for " <> obj.object_type) in
      let missing = message (name <> ": empty field " <> t.primary <> " for " <> obj.object_type) in
      let keyed_obj = keyed (lookup t.primary (entries t.columns)) missing obj in
      if-Keeps part (not (is_dirty obj)) (pure (pos 0))
        (if t.primary == "" then fail empty else keyed_obj) (λ st. refl)
        (if-Keeps part (t.primary == "") (fail empty) keyed_obj (λ st. refl)
          (keyed-Keeps (lookup t.primary (entries t.columns)) missing obj))

  save_by-Keeps : Keeps part (on_world (check_ctx o)) → Keeps part (save_by o name no_key has_key)
  unfolding save_by
  save_by-Keeps live =
      let chosen : Object → Table → Act (Session S) ℤ = choose o name no_key has_key in
      let unknown : Object → Error =
        λ obj. message (name <> ": unknown object table " <> obj.object_type) in
      let found : Object → Act (Session S) ℤ =
        λ obj. or_fail (get_table o.schema obj.object_type) (unknown obj) >>= chosen obj in
      bind-Keeps part (on_world (check_ctx o)) (λ u. gets (λ s. s.object) >>= found) live
        λ u.
          bind-Keeps part (gets (λ s. s.object)) found (λ s. refl)
            λ obj.
              bind-Keeps part (or_fail (get_table o.schema obj.object_type) (unknown obj))
                (chosen obj) (or_fail-Keeps part (get_table o.schema obj.object_type) (unknown obj))
                (choose-Keeps obj)

pub save-Keeps :
    {S C : Type 0} (o : Orm S) (part : Session S → C) (tx : Option ℕ)
    → Keeps part (on_world (check_ctx o))
    → Keeps part (insert o tx)
    → Keeps part (update o tx)
    → Keeps part (save o tx)
unfolding save
save-Keeps o part tx live inserts updates =
    save_by-Keeps o part "Save" (insert o tx) (update o tx) inserts updates live
