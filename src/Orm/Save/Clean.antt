-- ===== src/Orm/Save/Clean.antt =====
-- The object after a `Save` of orm/save.go that returns without error.
use dyndao.Base.{
  ℕ, String, ◌<>◌, ◌==◌, ◌≡◌, Bool, true, false, not, if◌then◌else◌, refl, Option, none, some,
  arith,
}
use dyndao.Base.Map.{lookup, contains, entries}
use dyndao.Base.Int.{ℤ, pos}
use dyndao.Base.Outcome.{Error, Outcome, ok, err, panic, message}
use dyndao.Object.{Object, is_dirty}
use dyndao.Schema.{Table, Column, get_table}
use dyndao.Orm.{Act, pure, fail, gets, or_fail, ◌>>=◌, Session, Orm, on_world, check_ctx}
use dyndao.Orm.Post.{Post, bind-Post, if-Post, or_fail-Post}
use dyndao.Orm.Write.{insert, update}
use dyndao.Orm.Write.After.{is_saved, insert-saved, update-saved}
use dyndao.Orm.Save.{save, save_by, choose}

-- The object is clean.
abbrev pub CleanObject : {S A : Type 0} → A → Session S → Type 0
CleanObject a st = st.object.dirty ≡ false

is_saved-CleanObject :
    {S : Type 0} (ran : Outcome ℤ × Session S) → is_saved ran ≡ true → Post CleanObject ran
unfolding is_dirty
is_saved-CleanObject (ok n, st) saved = ground arith
is_saved-CleanObject (err e, st) saved = tt
is_saved-CleanObject (panic p, st) saved = tt

clean_of :
    {S : Type 0} (obj : Object) (st : Session S)
    → obj ≡ st.object
    → not (is_dirty obj) ≡ true
    → st.object.dirty ≡ false
unfolding is_dirty
clean_of obj st same clean = rw same at (not_true obj.dirty clean)
  where
    not_true : (b : Bool) → not b ≡ true → b ≡ false
    not_true true h = cc
    not_true false h = refl

module _ {S : Type 0} (o : Orm S) (name : String) (no_key has_key : Act (Session S) ℤ)
    (inserts : (st : Session S) → Post CleanObject (no_key st))
    (updates : (st : Session S) → Post CleanObject (has_key st)) where
  choose-CleanObject :
      (obj : Object) (t : Table) (st : Session S)
      → obj ≡ st.object
      → Post CleanObject (choose o name no_key has_key obj t st)
  unfolding choose is_dirty
  choose-CleanObject obj t st same =
      let empty = message (name <> ": empty primary key for " <> obj.object_type) in
      let missing = message (name <> ": empty field " <> t.primary <> " for " <> obj.object_type) in
      let keyed : Option Column → Act (Session S) ℤ = λ found. elim found [
        | none ↦ fail missing
        | some f ↦ if contains f.name obj.kv then has_key else no_key
      ] in
      if-Post CleanObject (not (is_dirty obj)) (pure (pos 0))
        (if t.primary == "" then fail empty else keyed (lookup t.primary (entries t.columns))) st
        (λ clean. clean_of obj st same clean)
        λ dirty.
          if-Post CleanObject (t.primary == "") (fail empty)
            (keyed (lookup t.primary (entries t.columns))) st (λ no_primary. tt)
            λ has_primary.
              elim (lookup t.primary (entries t.columns))
                as (λ found. Post CleanObject (keyed found st)) [
                  | none ↦ tt
                  | some f ↦
                      if-Post CleanObject (contains f.name obj.kv) has_key no_key st
                        (λ key. updates st) (λ key. inserts st)
                ]

  save_by-CleanObject : (st : Session S) → Post CleanObject (save_by o name no_key has_key st)
  unfolding save_by
  save_by-CleanObject st =
      let chosen : Object → Table → Act (Session S) ℤ = choose o name no_key has_key in
      let unknown : Object → Error =
        λ obj. message (name <> ": unknown object table " <> obj.object_type) in
      let found : Object → Act (Session S) ℤ =
        λ obj. or_fail (get_table o.schema obj.object_type) (unknown obj) >>= chosen obj in
      bind-Post (λ u s. Unit) CleanObject (on_world (check_ctx o))
        (λ u. gets (λ s. s.object) >>= found) st (any (on_world (check_ctx o) st))
        λ u st1 ran.
          bind-Post (λ obj s. obj ≡ s.object) CleanObject (gets (λ s. s.object)) found st1 refl
            λ obj st2 same.
              bind-Post (λ t s. obj ≡ s.object) CleanObject
                (or_fail (get_table o.schema obj.object_type) (unknown obj)) (chosen obj) st2
                (or_fail-Post (λ t s. obj ≡ s.object) (get_table o.schema obj.object_type)
                  (unknown obj) st2 (λ t has. same))
                (choose-CleanObject obj)
    where
      any : {A : Type 0} (ran : Outcome A × Session S) → Post (λ a s. Unit) ran
      any (ok a, s) = tt
      any (err e, s) = tt
      any (panic p, s) = tt

pub save-CleanObject :
    {S : Type 0} (o : Orm S) (tx : Option ℕ) (st : Session S) → Post CleanObject (save o tx st)
unfolding save
save-CleanObject o tx st =
    save_by-CleanObject o "Save" (insert o tx) (update o tx)
      (λ st1. is_saved-CleanObject (insert o tx st1) (insert-saved o tx st1))
      (λ st1. is_saved-CleanObject (update o tx st1) (update-saved o tx st1)) st
