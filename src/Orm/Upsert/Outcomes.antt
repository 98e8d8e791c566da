-- ===== src/Orm/Upsert/Outcomes.antt =====
-- What orm/find_or_create.go and orm/create_or_update.go achieve.
use dyndao.Base.{String, ◌<>◌, ℕ, Option, some, none, true, false, ◌≡◌, ◌≢◌, arith, if◌then◌else◌}
use dyndao.Base.Outcome.{Outcome, ok, err, panic, message}
use dyndao.Base.Int.{ℤ, pos, eqb_ℤ}
use dyndao.Object.{Object, is_dirty}
use dyndao.Orm.{Act, pure, fail, gets, proceed, ◌>>=◌, Session, Orm}
use dyndao.Orm.Write.{insert, update}
use dyndao.Orm.Write.After.{is_saved, insert-saved, update-saved}
use dyndao.Orm.Load.{retrieve_tx}
use dyndao.Orm.Upsert.{find_or_create_tx, create_or_update_tx}

module _ {S : Type 0} (o : Orm S) where
  -- `FindOrCreateTx` never creates: whenever it returns without error, it reports no rows, and the
  -- object that it returns is the row that `RetrieveTx` found, in the state that this left.
  pub find_or_create_only_finds :
      (tx : Option ℕ) (obj : Object) (w w' : S) (n : ℤ) (found : Option Object)
      → find_or_create_tx o tx obj w ≡ (ok (n, found), w')
      → (n ≡ pos 0)
        × ((row : Object) × (found ≡ some row)
            × (retrieve_tx o tx obj.object_type obj.kv w ≡ (ok (some row), w')))
  unfolding find_or_create_tx
  find_or_create_only_finds tx obj w w' n found e = ground arith

  -- What was written after this retrieval: by an `Insert` where it found no row, by an `Update` where
  -- it found one
  abbrev pub WroteAfter :
      Outcome (Option Object) × S → Option ℕ → Session S → ℤ → Session S → Type 0
  WroteAfter (ok none, w) tx st n st' = insert o tx (record st { world = w }) ≡ (ok n, st')
  WroteAfter (ok (some row), w) tx st n st' = update o tx (record st { world = w }) ≡ (ok n, st')
  WroteAfter (err e, w) tx st n st' = ⊥
  WroteAfter (panic p, w) tx st n st' = ⊥

  -- The end of `CreateOrUpdateTx`
  abbrev reported : ℤ × String → Act (Session S) (ℤ × Object)
  reported (rows, op_type) =
      if eqb_ℤ rows (pos 0)
      then fail (message ("CreateOrUpdateTx: numRows was 0 when expecting " <> op_type))
      else gets (λ st. (rows, st.object))

  written :
      (m : Act (Session S) ℤ) (op_type : String) (st st' : Session S) (n : ℤ) (obj : Object)
      → ((m >>= λ k. pure {A = ℤ × String} (k, op_type)) >>= reported) st ≡ (ok (n, obj), st')
      → (m st ≡ (ok n, st')) × (n ≢ pos 0) × (obj ≡ st'.object)
  written m op_type st st' n obj e = grind arith

  after_retrieve :
      (found : Outcome (Option Object) × S) (tx : Option ℕ) (st st' : Session S) (n : ℤ)
      (obj : Object)
      → proceed found.0
          (λ r.
            elim r as (λ _. Act (Session S) (ℤ × String)) [
              | none ↦ (insert o tx >>= λ n. pure (n, "Insert"))
              | some row ↦ (update o tx >>= λ n. pure (n, "Update"))
            ]
            >>= reported)
          (record st { world = found.1 })
        ≡ (ok (n, obj), st')
      → WroteAfter found tx st n st' × (n ≢ pos 0) × (obj ≡ st'.object)
  after_retrieve (ok none, w) tx st st' n obj e =
      written (insert o tx) "Insert" (record st { world = w }) st' n obj e
  after_retrieve (ok (some row), w) tx st st' n obj e =
      written (update o tx) "Update" (record st { world = w }) st' n obj e
  after_retrieve (err x, w) tx st st' n obj e = cc
  after_retrieve (panic x, w) tx st st' n obj e = cc

  saved_object : (n : ℤ) (st : Session S) → is_saved (ok n, st) ≡ true → is_dirty st.object ≡ false
  saved_object n st saved = ground arith

  written_object :
      (found : Outcome (Option Object) × S) (tx : Option ℕ) (st st' : Session S) (n : ℤ)
      → WroteAfter found tx st n st'
      → is_dirty st'.object ≡ false
  written_object (ok none, w) tx st st' n wrote =
      saved_object n st' (rw wrote at (insert-saved o tx (record st { world = w })))
  written_object (ok (some row), w) tx st st' n wrote =
      saved_object n st' (rw wrote at (update-saved o tx (record st { world = w })))
  written_object (err x, w) tx st st' n wrote = absurd wrote
  written_object (panic x, w) tx st st' n wrote = absurd wrote

  -- Whenever `CreateOrUpdateTx` returns without error, it inserted the object where `RetrieveTx` found
  -- no row, and updated it where one was found; it returns the number of rows of that write, which is
  -- not 0, and the object as the write left it, which is clean.
  pub create_or_update_writes :
      (tx : Option ℕ) (st st' : Session S) (n : ℤ) (obj : Object)
      → create_or_update_tx o tx st ≡ (ok (n, obj), st')
      → WroteAfter (retrieve_tx o tx st.object.object_type st.object.kv st.world) tx st n st'
        × (n ≢ pos 0)
        × (obj ≡ st'.object)
        × (is_dirty obj ≡ false)
  unfolding create_or_update_tx
  create_or_update_writes tx st st' n obj e =
      let found = retrieve_tx o tx st.object.object_type st.object.kv st.world in
      let (wrote, some_rows, same) = after_retrieve found tx st st' n obj e in
      (wrote, some_rows, same, rw same (written_object found tx st st' n wrote))
