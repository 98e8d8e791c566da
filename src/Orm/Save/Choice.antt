-- ===== src/Orm/Save/Choice.antt =====
-- What `Save` and its variants (orm/save.go) choose to do.
use dyndao.Base.{
  ℕ, String, ◌<>◌, ◌≡◌, refl, ◌∙◌, true, false, Option, none, some, arith, Bool, ◌⊎◌, inl, inr,
  Bool-cases, Option-cases, ◌==◌, if◌then◌else◌,
}
use dyndao.Base.Map.{lookup, contains, entries}
use dyndao.Base.Outcome.{Error, message, ok, err}
use dyndao.Base.Int.{ℤ, pos}
use dyndao.Schema.{Column, Table, get_table}
use dyndao.Object.{Object, is_dirty}
use dyndao.Orm.{Act, Session, Orm, check_ctx}
use dyndao.Orm.Write.{insert, update}
use dyndao.Orm.Save.{choose, save_by, save, save_but_error_if_update, save_but_error_if_insert}

module _ {S : Type 0} (o : Orm S) (name : String) (no_key has_key : Act (Session S) ℤ) where
  choose_clean :
      (obj : Object) (t : Table) (st : Session S)
      → is_dirty obj ≡ false
      → choose o name no_key has_key obj t st ≡ (ok (pos 0), st)
  unfolding choose
  choose_clean obj t st clean = rw clean

  choose_dirty :
      (obj : Object) (t : Table) (f : Column) (st : Session S)
      → is_dirty obj ≡ true
      → (t.primary == "") ≡ false
      → lookup t.primary (entries t.columns) ≡ some f
      → choose o name no_key has_key obj t st
        ≡ (if contains f.name obj.kv then has_key else no_key) st
  unfolding choose
  choose_dirty obj t f st dirty primary column = rw (dirty, primary, column)

  save_by-choose :
      (t : Table) (st : Session S)
      → o.raw_conn.ctx_err st.world ≡ none
      → get_table o.schema st.object.object_type ≡ some t
      → save_by o name no_key has_key st ≡ choose o name no_key has_key st.object t st
  unfolding save_by check_ctx
  save_by-choose t st live found = ground arith

module _ {S : Type 0} (o : Orm S) (tx : Option ℕ) (st : Session S) (t : Table)
    (live : o.raw_conn.ctx_err st.world ≡ none)
    (found : get_table o.schema st.object.object_type ≡ some t) where
  -- While the context lives, for an object of a known table that is clean, `Save`,
  -- `SaveButErrorIfUpdate` and `SaveButErrorIfInsert` return 0 rows and change neither the object nor
  -- the database.
  pub clean_is_skipped :
      is_dirty st.object ≡ false
      → (save o tx st ≡ (ok (pos 0), st))
        × (save_but_error_if_update o tx st ≡ (ok (pos 0), st))
        × (save_but_error_if_insert o tx st ≡ (ok (pos 0), st))
  unfolding save save_but_error_if_update save_but_error_if_insert
  clean_is_skipped clean = (
    save_by-choose o "Save" (insert o tx) (update o tx) t st live found
        ∙ choose_clean o _ _ _ st.object t st clean,
    save_by-choose o _ _ _ t st live found ∙ choose_clean o _ _ _ st.object t st clean,
    save_by-choose o _ _ _ t st live found ∙ choose_clean o _ _ _ st.object t st clean,
  )

  module _ (f : Column) (dirty : is_dirty st.object ≡ true)
      (has_primary : (t.primary == "") ≡ false)
      (has_column : lookup t.primary (entries t.columns) ≡ some f) where
    dirty-choose :
        (name : String) (no_key has_key : Act (Session S) ℤ)
        → save_by o name no_key has_key st
          ≡ (if contains f.name st.object.kv then has_key else no_key) st
    dirty-choose name no_key has_key =
        save_by-choose o name no_key has_key t st live found
        ∙ choose_dirty o name no_key has_key st.object t f st dirty has_primary has_column

    -- While the context lives, for a dirty object of a known table with a primary key column, that
    -- has no value for this column, `Save` and `SaveButErrorIfUpdate` do what `Insert` does, and
    -- `SaveButErrorIfInsert` fails and changes neither the object nor the database.
    pub no_key_inserts :
        contains f.name st.object.kv ≡ false
        → (save o tx st ≡ insert o tx st)
          × (save_but_error_if_update o tx st ≡ insert o tx st)
          × (e : Error) × (save_but_error_if_insert o tx st ≡ (err e, st))
    unfolding save save_but_error_if_update save_but_error_if_insert
    no_key_inserts absent = (
      dirty-choose _ _ _ ∙ rw absent refl,
      dirty-choose _ _ _ ∙ rw absent refl,
      message "SaveButErrorIfInsert: ORM was told to expect an Update for this obj: ",
      dirty-choose _ _ _ ∙ rw absent refl,
    )

    -- While the context lives, for a dirty object of a known table with a primary key column, that
    -- has a value for this column, `Save` and `SaveButErrorIfInsert` do what `Update` does, and
    -- `SaveButErrorIfUpdate` fails and changes neither the object nor the database.
    pub has_key_updates :
        contains f.name st.object.kv ≡ true
        → (save o tx st ≡ update o tx st)
          × (save_but_error_if_insert o tx st ≡ update o tx st)
          × (e : Error) × (save_but_error_if_update o tx st ≡ (err e, st))
    unfolding save save_but_error_if_update save_but_error_if_insert
    has_key_updates present = (
      dirty-choose _ _ _ ∙ rw present refl,
      dirty-choose _ _ _ ∙ rw present refl,
      message "SaveButErrorIfUpdate: ORM was told to expect an Insert for this obj: ",
      dirty-choose _ _ _ ∙ rw present refl,
    )

-- Why an object is not saved: the context is done, its table is unknown, or it is dirty and its table
-- has no primary key or no column of that name.
abbrev pub Refused : {S : Type 0} → Orm S → Session S → Type 0
Refused o st =
    ((e : Error) × (o.raw_conn.ctx_err st.world ≡ some e))
    ⊎ (get_table o.schema st.object.object_type ≡ none)
    ⊎ ((is_dirty st.object ≡ true)
        × (t : Table) × (get_table o.schema st.object.object_type ≡ some t)
        × (((t.primary == "") ≡ true) ⊎ (lookup t.primary (entries t.columns) ≡ none)))

-- The object has a column for its primary key, with or without a value.
abbrev pub HasKey : {S : Type 0} → Orm S → Session S → Bool → Type 0
HasKey o st has_value =
    (t : Table) × (f : Column) × (get_table o.schema st.object.object_type ≡ some t)
    × (lookup t.primary (entries t.columns) ≡ some f)
    × (contains f.name st.object.kv ≡ has_value)

-- What `Save`, `SaveButErrorIfUpdate` and `SaveButErrorIfInsert` do in the same state
pub data Chosen {S : Type 0} (o : Orm S) (tx : Option ℕ) (st : Session S) : Type 0 where
  refused :
      Refused o st
      → (e e2 e3 : Error) → save o tx st ≡ (err e, st)
      → save_but_error_if_update o tx st ≡ (err e2, st)
      → save_but_error_if_insert o tx st ≡ (err e3, st)
      → Chosen o tx st
  skipped :
      is_dirty st.object ≡ false
      → save o tx st ≡ (ok (pos 0), st)
      → save_but_error_if_update o tx st ≡ (ok (pos 0), st)
      → save_but_error_if_insert o tx st ≡ (ok (pos 0), st)
      → Chosen o tx st
  inserted :
      is_dirty st.object ≡ true
      → HasKey o st false
      → (e : Error) → save o tx st ≡ insert o tx st
      → save_but_error_if_update o tx st ≡ insert o tx st
      → save_but_error_if_insert o tx st ≡ (err e, st)
      → Chosen o tx st
  updated :
      is_dirty st.object ≡ true
      → HasKey o st true
      → (e : Error) → save o tx st ≡ update o tx st
      → save_but_error_if_update o tx st ≡ (err e, st)
      → save_but_error_if_insert o tx st ≡ update o tx st
      → Chosen o tx st

module _ {S : Type 0} (o : Orm S) (st : Session S) where
  -- It returns an error and changes nothing.
  abbrev Fails : Act (Session S) ℤ → Type 0
  Fails m = (e : Error) × (m st ≡ (err e, st))

  module _ (name : String) (no_key has_key : Act (Session S) ℤ) where
    cancelled-Fails :
        (e : Error) → o.raw_conn.ctx_err st.world ≡ some e → Fails (save_by o name no_key has_key)
    unfolding save_by check_ctx
    cancelled-Fails e done = (e, grind (arith, done))

    unknown-Fails :
        o.raw_conn.ctx_err st.world ≡ none
        → get_table o.schema st.object.object_type ≡ none
        → Fails (save_by o name no_key has_key)
    unfolding save_by check_ctx
    unknown-Fails live unknown = (
      message (name <> ": unknown object table " <> st.object.object_type),
      grind (arith, live, unknown),
    )

    choose-Fails :
        (t : Table)
        → is_dirty st.object ≡ true
        → ((t.primary == "") ≡ true) ⊎ (lookup t.primary (entries t.columns) ≡ none)
        → Fails (choose o name no_key has_key st.object t)
    unfolding choose
    choose-Fails t dirty reason = elim (Bool-cases (t.primary == "")) [
      | inl empty ↦ (
        message (name <> ": empty primary key for " <> st.object.object_type),
        grind (arith, dirty, empty),
      )
      | inr named ↦ (
        message (name <> ": empty field " <> t.primary <> " for " <> st.object.object_type),
        grind (arith, dirty, named, reason),
      )
    ]

    not_saved-Fails : Refused o st → Fails (save_by o name no_key has_key)
    not_saved-Fails (inl (e, done)) = cancelled-Fails e done
    not_saved-Fails (inr (inl unknown)) = elim (Option-cases (o.raw_conn.ctx_err st.world)) [
      | inr (e, done) ↦ cancelled-Fails e done
      | inl live ↦ unknown-Fails live unknown
    ]
    not_saved-Fails (inr (inr (dirty, t, found, reason))) =
        elim (Option-cases (o.raw_conn.ctx_err st.world)) [
          | inr (e, done) ↦ cancelled-Fails e done
          | inl live ↦
              let (e, fails) = choose-Fails t dirty reason in
              (e, save_by-choose o name no_key has_key t st live found ∙ fails)
        ]

module _ {S : Type 0} (o : Orm S) (tx : Option ℕ) (st : Session S) where
  not_saved-Chosen : Refused o st → Chosen o tx st
  unfolding save save_but_error_if_update save_but_error_if_insert
  not_saved-Chosen reason =
      let (e, first) = not_saved-Fails o st _ _ _ reason in
      let (e2, second) = not_saved-Fails o st _ _ _ reason in
      let (e3, third) = not_saved-Fails o st _ _ _ reason in
      refused reason e e2 e3 first second third

  module _ (t : Table) (live : o.raw_conn.ctx_err st.world ≡ none)
      (found : get_table o.schema st.object.object_type ≡ some t)
      (dirty : is_dirty st.object ≡ true) where
    keyed-Chosen :
        (f : Column)
        → (t.primary == "") ≡ false
        → lookup t.primary (entries t.columns) ≡ some f
        → Chosen o tx st
    keyed-Chosen f named column = elim (Bool-cases (contains f.name st.object.kv)) [
      | inl present ↦
          let (saves, only_updates, e, fails) =
            has_key_updates o tx st t live found f dirty named column present in
          updated dirty (t, f, found, column, present) e saves fails only_updates
      | inr absent ↦
          let (saves, only_inserts, e, fails) =
            no_key_inserts o tx st t live found f dirty named column absent in
          inserted dirty (t, f, found, column, absent) e saves only_inserts fails
    ]

  -- Of every object in every state one of four holds. The context is done, the table is unknown, or the
  -- object is dirty and its table has no primary key or no column for it: all three fail and leave the
  -- state as it was. The object is clean: all three return 0 rows and leave the state as it was. It is
  -- dirty and has no value for its primary key: `Save` and `SaveButErrorIfUpdate` do what `Insert` does,
  -- and the third fails in the same state. It is dirty and has one: `Save` and `SaveButErrorIfInsert` do
  -- what `Update` does, and `SaveButErrorIfUpdate` fails in the same state.
  pub saves_choose : Chosen o tx st
  saves_choose = elim (Option-cases (o.raw_conn.ctx_err st.world)) [
    | inr (e, done) ↦ not_saved-Chosen (inl (e, done))
    | inl live ↦ elim (Option-cases (get_table o.schema st.object.object_type)) [
      | inl unknown ↦ not_saved-Chosen (inr (inl unknown))
      | inr (t, found) ↦ elim (Bool-cases (is_dirty st.object)) [
        | inr clean ↦
            let (saves, only_inserts, only_updates) = clean_is_skipped o tx st t live found clean in
            skipped clean saves only_inserts only_updates
        | inl dirty ↦ elim (Bool-cases (t.primary == "")) [
          | inl empty ↦ not_saved-Chosen (inr (inr (dirty, t, found, inl empty)))
          | inr named ↦ elim (Option-cases (lookup t.primary (entries t.columns))) [
            | inl missing ↦ not_saved-Chosen (inr (inr (dirty, t, found, inr missing)))
            | inr (f, column) ↦ keyed-Chosen t live found dirty f named column
          ]
        ]
      ]
    ]
  ]
