-- ===== src/Core/Update/Saved.antt =====
-- Which values an UPDATE writes (adapters/core/update.go).
use dyndao.Base.{
  String, ◌<>◌, ◌≡◌, refl, ◌≢◌, true, false, [], ◌∷◌, length, arith, eq_iff, ◌⊎◌, inl, inr, ap, sym,
  ◌∙◌, Bool-cases, ◌||◌, if◌then◌else◌,
}
use dyndao.Base.Map.{Map, keys, lookup, contains}
use dyndao.Base.Outcome.{Outcome, ok, err, panic, ◌>>=◌}
use dyndao.Value.{Value, nil, time, Time, Std, is_nil}
use dyndao.Schema.{Column, Table}
use dyndao.Object.{Object, get, set}
use dyndao.Object.Tracking.{get-set}
use dyndao.SqlGen.{Generator}
use dyndao.Core.Update.{
  zero_time, sql_value_convert, safe_convert, set_column, set_list, update_lists, entries_of,
  changed_entries,
}
use dyndao.Core.Update.Lists.{length_pos}

-- The value that an UPDATE stores of `v`: in a timestamp column the time that it converts to, in
-- any other column itself
abbrev pub Stores : Std → Generator → Column → Value → Value → Type 0
Stores s g f v w =
    ((g.classes.is_timestamp_type f.db_type ≡ false) × (w ≡ v))
    ⊎ ((g.classes.is_timestamp_type f.db_type ≡ true)
        × (t : Time) × (safe_convert s v ≡ ok t)
        × (w ≡ time t))

-- The entry of a column that stores `w`: NULL and no argument for a nil or a zero time, otherwise the
-- placeholder with `w` as its argument
abbrev pub Binds : Column → String → Value → String × Value → Type 0
Binds f placeholder w (text, arg) =
    (((is_nil w || zero_time w) ≡ true) × (text ≡ f.name <> " = NULL") × (arg ≡ nil))
    ⊎ (((is_nil w || zero_time w) ≡ false) × (text ≡ f.name <> " = " <> placeholder) × (arg ≡ w))

-- What a column of the SET list says: the SQL text of an SQLValue without an argument, or what it
-- stores of the value.
abbrev pub Assigns : Std → Generator → Column → String → Value → String × Value → Type 0
Assigns s g f placeholder v (text, arg) =
    (((sql_value_convert v).1 ≡ true)
      × (text ≡ f.name <> " = " <> (sql_value_convert v).0)
      × (arg ≡ nil))
    ⊎ (((sql_value_convert v).1 ≡ false)
        × (w : Value) × Stores s g f v w
        × Binds f placeholder w (text, arg))

module _ (s : Std) (g : Generator) (f : Column) (placeholder : String) (text : String)
    (arg : Value) where
  -- The entry that `set_column` makes of the value that is stored
  abbrev entry : Value → String × Value
  entry w =
      if is_nil w || zero_time w
      then (f.name <> " = NULL", nil)
      else (f.name <> " = " <> placeholder, w)

  entry-Binds : (w : Value) → ok (entry w) ≡ ok (text, arg) → Binds f placeholder w (text, arg)
  entry-Binds w built = ground arith

  converted-Binds :
      (v : Value) (r : Outcome Time)
      → safe_convert s v ≡ r
      → g.classes.is_timestamp_type f.db_type ≡ true
      → ((r >>= λ t. ok (time t)) >>= λ w. ok (entry w)) ≡ ok (text, arg)
      → (w : Value) × Stores s g f v w × Binds f placeholder w (text, arg)
  converted-Binds v (ok t) runs stamp built =
      (time t, inr (stamp, t, runs, refl), entry-Binds (time t) built)
  converted-Binds v (err e) runs stamp built = cc
  converted-Binds v (panic p) runs stamp built = cc

  -- Every entry of a SET list that is built says what its column and its value ask for.
  pub set_column-Assigns :
      (v : Value)
      → set_column s g f placeholder v ≡ ok (text, arg)
      → Assigns s g f placeholder v (text, arg)
  unfolding set_column
  set_column-Assigns v built = elim (Bool-cases (sql_value_convert v).1) [
    | inl raw ↦ inl (ground arith)
    | inr plain ↦
        let (w, stores, binds) =
          elim (Bool-cases (g.classes.is_timestamp_type f.db_type))
            as (λ c. (w : Value) × Stores s g f v w × Binds f placeholder w (text, arg)) [
              | inl stamp ↦
                  converted-Binds v (safe_convert s v) refl stamp
                    (rw (plain, stamp, set_column) at built)
              | inr other ↦
                  (v, inl (other, refl), entry-Binds v (rw (plain, other, set_column) at built))
            ] in
        inr (plain, w, stores, binds)
  ]

-- Another key's value does not show in the entries of the changed columns.
same_entries :
    (s : Std) (k : String) (v : Value) (o : Object) (m : Map Value)
    → contains k m ≡ false
    → entries_of (set s k v o) (keys m) ≡ entries_of o (keys m)
same_entries s k v o [] absent = refl
same_entries s k v o ((j, w) ∷ m) absent =
    let here : get j (set s k v o) ≡ get j o =
      unfold contains lookup in ground (arith, get-set s k j v o, eq_iff k j, eq_iff j k) in
    let there = same_entries s k v o m (unfold contains lookup in ground (arith, eq_iff j k)) in
    cc (here, there)

changed-set_fresh :
    (s : Std) (k : String) (v : Value) (o : Object)
    → is_nil (get k o) ≡ true
    → ((set s k v o).changed_columns ≡ o.changed_columns)
      × ((set s k v o).object_type ≡ o.object_type)
unfolding set
changed-set_fresh s k v o fresh = ground arith

update_lists_changed :
    (s : Std) (g : Generator) (t : Table) (o : Object)
    → o.changed_columns ≢ []
    → update_lists s g t o
      ≡ set_list s g t o.object_type g.render_binding_value_with_int
          (length o.changed_columns)
          0
          (changed_entries o)
unfolding update_lists
update_lists_changed s g t o h = rw (length_pos o.changed_columns h)

-- On an object with changed columns, a `Set` of a key that had no value, and is not among them,
-- leaves the SET list of the next UPDATE as it was: the new value is not saved.
pub fresh_set_not_saved :
    (s : Std) (g : Generator) (t : Table) (k : String) (v : Value) (o : Object)
    → o.changed_columns ≢ []
    → contains k o.changed_columns ≡ false
    → is_nil (get k o) ≡ true
    → update_lists s g t (set s k v o) ≡ update_lists s g t o
fresh_set_not_saved s g t k v o some_changed absent fresh =
    let (changed, type_kept) = changed-set_fresh s k v o fresh in
    let run = update_lists_changed s g t (set s k v o) (λ e. some_changed (sym changed ∙ e)) in
    let entries_kept : changed_entries (set s k v o) ≡ changed_entries o =
      ap (λ m. entries_of (set s k v o) (keys m)) changed
      ∙ same_entries s k v o o.changed_columns absent in
    cc (run, update_lists_changed s g t o some_changed, type_kept, entries_kept, ap length changed)
