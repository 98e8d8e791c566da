-- ===== src/Orm/Write/After.antt =====
-- The object after a successful write (orm/insert.go, orm/update.go, orm/delete.go).
use dyndao.Base.{ℕ, ◌≡◌, Bool, true, eqb, length, not, ◌&&◌, Option, List, arith}
use dyndao.Base.Outcome.{Outcome, ok, err, panic}
use dyndao.Base.Int.{ℤ}
use dyndao.Value.{Value}
use dyndao.Schema.{Table}
use dyndao.Object.{is_dirty, mark_dirty, reset_changed_columns}
use dyndao.Orm.{Session, Orm}
use dyndao.Orm.Write.{insert, insert_with, update, update_with, delete, delete_with}

-- After a call without error or panic, the object is clean and none of its columns is recorded as
-- changed.
abbrev pub is_saved : {S : Type 0} → Outcome ℤ × Session S → Bool
is_saved (ok n, st) = not (is_dirty st.object) && eqb 0 (length st.object.changed_columns)
is_saved (err e, st) = true
is_saved (panic p, st) = true

module _ {S : Type 0} (o : Orm S) where
  delete_with-saved :
      (args : List Value) (stmt : ℕ) (st : Session S) → is_saved (delete_with o args stmt st) ≡ true
  unfolding delete_with is_dirty mark_dirty reset_changed_columns
  delete_with-saved args stmt st = ground arith

  update_with-saved :
      (args : List Value) (stmt : ℕ) (st : Session S) → is_saved (update_with o args stmt st) ≡ true
  unfolding update_with is_dirty mark_dirty reset_changed_columns
  update_with-saved args stmt st = ground arith

  insert_with-saved :
      (t : Table) (args : List Value) (stmt : ℕ) (st : Session S)
      → is_saved (insert_with o t args stmt st) ≡ true
  unfolding insert_with is_dirty mark_dirty reset_changed_columns
  insert_with-saved t args stmt st = ground arith

  delete-saved : (tx : Option ℕ) (st : Session S) → is_saved (delete o tx st) ≡ true
  unfolding delete is_dirty mark_dirty reset_changed_columns
  delete-saved tx st = grind (arith, delete_with-saved)

  pub update-saved : (tx : Option ℕ) (st : Session S) → is_saved (update o tx st) ≡ true
  unfolding update
  update-saved tx st = grind (arith, update_with-saved)

  pub insert-saved : (tx : Option ℕ) (st : Session S) → is_saved (insert o tx st) ≡ true
  unfolding insert is_dirty mark_dirty reset_changed_columns
  insert-saved tx st = grind (arith, insert_with-saved)

  -- Whenever `Insert`, `Update` or `Delete` returns without error, whatever its hooks did, the object
  -- is clean and none of its columns is recorded as changed.
  pub writes_leave_saved :
      (tx : Option ℕ) (st : Session S)
      → (is_saved (insert o tx st) ≡ true)
        × (is_saved (update o tx st) ≡ true)
        × (is_saved (delete o tx st) ≡ true)
  writes_leave_saved tx st = (insert-saved tx st, update-saved tx st, delete-saved tx st)
