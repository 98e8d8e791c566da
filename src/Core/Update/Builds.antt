-- ===== src/Core/Update/Builds.antt =====
-- When an UPDATE of the changed columns (adapters/core/update.go) can be built, and of which arguments.
use dyndao.Base.{
  ℕ, zero, suc, ◌+◌, ◌-◌, ◌≤◌, String, ◌<>◌, ◌≡◌, refl, Bool, true, false, ◌||◌, ◌&&◌, ◌⊎◌, inl,
  inr, none, some, List, [], ◌∷◌, All, length, length-map, Bool-cases, not, ◌∙◌, replicate, ltb,
  eqb, arith, if◌then◌else◌,
}
use dyndao.Base.Map.{Map, keys, lookup}
use dyndao.Base.Outcome.{Outcome, ok, err, panic, is_ok}
use dyndao.Value.{Value, nil, Std, is_nil}
use dyndao.Schema.{Column, Table, Schema, get_table, get_column}
use dyndao.Object.{Object, get}
use dyndao.SqlGen.{Generator}
use dyndao.Core.Insert.Counts.{non_nils}
use dyndao.Core.Where.{equals, render_update_where_clause}
use dyndao.Core.Update.{
  set_column, set_list, update_lists, entries_of, changed_entries, safe_convert, zero_time,
  sql_value_convert, binding_update,
}

-- An argument that is bound as it is, or left out: not a nil `*time.Time`
abbrev pub is_arg : Value → Bool
is_arg (Value.time_ptr _ none) = false
is_arg v = true

abbrev pub all_args : List Value → Bool
all_args [] = true
all_args (v ∷ vs) = is_arg v && all_args vs

abbrev pub yields_args : Outcome (List String × List Value) → Bool
yields_args (ok (texts, args)) = all_args args
yields_args (err e) = false
yields_args (panic p) = false

abbrev yields_arg : Outcome (String × Value) → Bool
yields_arg (ok (text, arg)) = is_arg arg
yields_arg (err e) = false
yields_arg (panic p) = false

-- A value that is neither nil nor a zero time is bound.
bound-is_arg :
    (f : Column) (placeholder : String) (w : Value)
    → yields_arg (
        ok (
          if is_nil w || zero_time w
          then (f.name <> " = NULL", nil)
          else (f.name <> " = " <> placeholder, w)))
      ≡ true
unfolding zero_time
bound-is_arg f placeholder w = ground arith

blank-all_args : (n : ℕ) → all_args (replicate n nil) ≡ true
blank-all_args zero = refl
blank-all_args (suc n) = blank-all_args n

module _ (s : Std) (g : Generator) (t : Table) where
  -- The key names a column, and a value of a timestamp column is converted without a panic.
  abbrev pub IsUpdatable : String × Value → Type 0
  IsUpdatable (k, v) =
      (f : Column) × (get_column t k ≡ some f)
      × ((g.classes.is_timestamp_type f.db_type ≡ false) ⊎ (is_ok (safe_convert s v) ≡ true))

  set_column-yields_arg :
      (f : Column) (placeholder : String) (v : Value)
      → (g.classes.is_timestamp_type f.db_type ≡ false) ⊎ (is_ok (safe_convert s v) ≡ true)
      → yields_arg (set_column s g f placeholder v) ≡ true
  unfolding set_column zero_time sql_value_convert
  set_column-yields_arg f placeholder v fits = grind (arith, fits, bound-is_arg f)

  module _ (name : String) (ph : Column → ℕ → String) (n : ℕ) where
    set_list-yields_args :
        (i : ℕ) (m : Map Value)
        → i + length m ≤ n
        → All IsUpdatable m
        → yields_args (set_list s g t name ph n i m) ≡ true
    unfolding set_list
    set_list-yields_args i [] room updatable = blank-all_args (n - i)
    set_list-yields_args i ((k, v) ∷ m) room ((f, found, fits), updatable) =
        let one = set_column-yields_arg f (ph f i) v fits in
        let skipped = set_list-yields_args i m (omega (arith, room)) updatable in
        let others = set_list-yields_args (suc i) m (omega (arith, room)) updatable in
        grind (arith, found, one, skipped, others, room)

-- An argument that can be handed to the driver
abbrev pub is_ready : Value → Bool
is_ready v = not (is_nil v) && is_arg v

abbrev pub all_ready : List Value → Bool
all_ready [] = true
all_ready (v ∷ vs) = is_ready v && all_ready vs

non_nils-ready : (vs : List Value) → all_args vs ≡ true → all_ready (non_nils vs) ≡ true
non_nils-ready [] h = refl
non_nils-ready (v ∷ vs) h = grind (arith, h, non_nils-ready vs)

-- The statement is built, and its arguments can be handed to the driver.
abbrev pub yields_ready : Outcome (String × List Value × List Value) → Bool
yields_ready (ok (sql, args, where_args)) = all_ready args && all_ready where_args
yields_ready (err e) = false
yields_ready (panic p) = false

length-entries_of : (o : Object) (ks : List String) → length (entries_of o ks) ≡ length ks
length-entries_of o [] = refl
length-entries_of o (k ∷ ks) = omega (arith, length-entries_of o ks)

module _ (remove_nils : List Value → List Value)
    (removes : (vs : List Value) → remove_nils vs ≡ non_nils vs) (s : Std) (g : Generator)
    (sch : Schema) (o : Object) (t : Table) (fields : Map Column) where
  changed-yields_args :
      ltb 0 (length o.changed_columns) ≡ true
      → All (IsUpdatable s g t) (changed_entries o)
      → yields_args (update_lists s g t o) ≡ true
  unfolding update_lists
  changed-yields_args changed updatable =
      let n = length o.changed_columns in
      let size : length (changed_entries o) ≡ n =
        length-entries_of o (keys o.changed_columns) ∙ length-map (λ e. e.0) o.changed_columns in
      rw (changed, update_lists)
        (set_list-yields_args s g t o.object_type g.render_binding_value_with_int n 0
          (changed_entries o) (omega (arith, size)) updatable)

  clause-ready :
      (f : Column)
      → t.multi_key ≡ false
      → lookup t.primary fields ≡ some f
      → is_ready (get t.primary o) ≡ true
      → (clause : String) × (where_args : List Value) × (render_update_where_clause g t fields o
          ≡ ok (clause, where_args))
        × (all_ready where_args ≡ true)
  unfolding render_update_where_clause
  clause-ready f single found ready = elim (Bool-cases (eqb (length o.kv) 0)) [
    | inl empty ↦ ("", [], rw (render_update_where_clause, empty) refl, refl)
    | inr filled ↦ (
      equals g f,
      get t.primary o ∷ [],
      grind (arith, filled, single, found, ready),
      ground (arith, ready),
    )
  ]

  -- Of an object of a known table with a single key, that has a value for its primary key column,
  -- and changes recorded only for columns whose present values convert: BindingUpdate makes a
  -- statement, and arguments that are neither nil nor nil pointers.
  pub changed_update_builds :
      (f : Column)
      → get_table sch o.object_type ≡ some t
      → t.columns ≡ some fields
      → t.multi_key ≡ false
      → lookup t.primary fields ≡ some f
      → is_ready (get t.primary o) ≡ true
      → ltb 0 (length o.changed_columns) ≡ true
      → All (IsUpdatable s g t) (changed_entries o)
      → yields_ready (binding_update remove_nils s g sch o) ≡ true
  unfolding binding_update
  changed_update_builds f here has single found ready changed updatable =
      let (clause, where_args, built, bound) = clause-ready f single found ready in
      let lists = changed-yields_args changed updatable in
      grind (arith, here, has, built, bound, lists, removes, non_nils-ready)
