-- ===== src/Core/Insert/Bindable.antt =====
-- The values that an INSERT (adapters/core/insert.go) takes.
use dyndao.Base.{
  String, ◌≡◌, Bool, true, false, some, List, [], ◌∷◌, All, ◌==◌, if◌then◌else◌, Bool-cases, inl,
  inr,
}
use dyndao.Base.Map.{Map, lookup}
use dyndao.Base.Outcome.{Outcome, ok, err, panic, ◌>>=◌}
use dyndao.Value.{
  Value, nil, bool, string, int, int32, int64, uint64, float64, null_string, null_string_ptr, time,
  time_ptr, sql_value, sql_value_ptr, gjson_result, named, out, other, Std, is_nil,
}
use dyndao.Schema.{Column, Table, Schema, get_table, get_column_name, override_name}
use dyndao.SqlGen.{Generator}
use dyndao.Core.Insert.{
  insert_value, core_binding_insert, insert_statement, binding_insert, render_insert_value,
}
use dyndao.Core.Insert.Counts.{RendersAsCore, non_nils}

-- A value that RenderInsertValue takes, a nil, or an SQLValue
abbrev pub IsBindable : Value → Type 0
IsBindable (bool b) = ⊥
IsBindable (null_string t) = ⊥
IsBindable (null_string_ptr a t) = ⊥
IsBindable (time t) = ⊥
IsBindable (time_ptr a t) = ⊥
IsBindable (gjson_result n) = ⊥
IsBindable (named n v) = ⊥
IsBindable out = ⊥
IsBindable (other t n) = ⊥
IsBindable v = Unit

-- An argument as the driver takes it, or a nil
abbrev pub IsArgument : Value → Type 0
IsArgument nil = Unit
IsArgument (string t) = Unit
IsArgument (int n) = Unit
IsArgument (int64 n) = Unit
IsArgument v = ⊥

-- The call returns, and this holds of the result.
abbrev pub Yields {ℓ} : {A : Type ℓ} → (A → Type 0) → Outcome A → Type 0
Yields P (ok a) = P a
Yields P (err e) = ⊥
Yields P (panic p) = ⊥

Yields-next :
    {A B : Type 0} (P : A → Type 0) (Q : B → Type 0) (r : Outcome A) (f : A → Outcome B)
    → Yields P r
    → ((a : A) → P a → Yields Q (f a))
    → Yields Q (r >>= f)
Yields-next P Q (ok a) f holds next = next a holds
Yields-next P Q (err e) f holds next = holds
Yields-next P Q (panic p) f holds next = holds

-- Every key names a column, and every value can be bound.
abbrev pub IsInsertable : Table → Map Column → Map Value → Type 0
IsInsertable t fields =
    All (λ (k, v). ((f : Column) × (lookup (get_column_name t k) fields ≡ some f)) × IsBindable v)

module _ (s : Std) (g : Generator) (core : RendersAsCore g) where
  float-IsArgument :
      (b : Bool) (v w : Value) → IsArgument v → IsArgument w → IsArgument (if b then v else w)
  float-IsArgument true v w p q = p
  float-IsArgument false v w p q = q

  insert_value-Yields :
      (f : Column) (v : Value) → IsBindable v → Yields (λ x. IsArgument x.1) (insert_value s g f v)
  unfolding insert_value render_insert_value
  insert_value-Yields f nil h = tt
  insert_value-Yields f (sql_value t) h = tt
  insert_value-Yields f (sql_value_ptr a t) h = tt
  insert_value-Yields f (string t) h = rw (core.values s f (string t)) tt
  insert_value-Yields f (int n) h = rw (core.values s f (int n)) tt
  insert_value-Yields f (int32 n) h = rw (core.values s f (int32 n)) tt
  insert_value-Yields f (int64 n) h = rw (core.values s f (int64 n)) tt
  insert_value-Yields f (uint64 n) h = rw (core.values s f (uint64 n)) tt
  insert_value-Yields f (float64 x) h =
      rw (core.values s f (float64 x))
        (float-IsArgument f.is_number (int64 (s.float_to_int x)) (string (s.format_float x)) tt tt)
  insert_value-Yields f (bool b) h = absurd h
  insert_value-Yields f (null_string t) h = absurd h
  insert_value-Yields f (null_string_ptr a t) h = absurd h
  insert_value-Yields f (time t) h = absurd h
  insert_value-Yields f (time_ptr a t) h = absurd h
  insert_value-Yields f (gjson_result n) h = absurd h
  insert_value-Yields f (named n v) h = absurd h
  insert_value-Yields f out h = absurd h
  insert_value-Yields f (other n i) h = absurd h

  core_binding_insert-Yields :
      (t : Table) (fields : Map Column) (data_map : Map Value)
      → IsInsertable t fields data_map
      → Yields (λ lists. All IsArgument lists.2) (core_binding_insert s g t fields data_map)
  unfolding core_binding_insert
  core_binding_insert-Yields t fields [] h = tt
  core_binding_insert-Yields t fields ((k, v) ∷ rest) (((f, found), bindable), h) =
      rw (found, core_binding_insert)
        (Yields-next (λ x. IsArgument x.1) (λ lists. All IsArgument lists.2) (insert_value s g f v)
          (λ (name, arg). core_binding_insert s g t fields rest >>= λ (names, cols, args).
            ok (name ∷ names, get_column_name t k ∷ cols, arg ∷ args))
          (insert_value-Yields f v bindable)
          λ (name, arg) argument.
            Yields-next (λ lists. All IsArgument lists.2) (λ lists. All IsArgument lists.2)
              (core_binding_insert s g t fields rest)
              (λ (names, cols, args). ok (name ∷ names, get_column_name t k ∷ cols, arg ∷ args))
              (core_binding_insert-Yields t fields rest h) (λ lists others. (argument, others)))

-- An argument as it is handed to the driver
abbrev pub IsReady : Value → Type 0
IsReady v = IsArgument v × (is_nil v ≡ false)

non_nils-IsReady : (vs : List Value) → All IsArgument vs → All IsReady (non_nils vs)
non_nils-IsReady [] h = tt
non_nils-IsReady (v ∷ vs) h = elim (Bool-cases (is_nil v)) [
  | inl absent ↦ rw (absent, non_nils) (non_nils-IsReady vs h.1)
  | inr present ↦ rw (present, non_nils) ((h.0, present), non_nils-IsReady vs h.1)
]

module _ (remove_nils : List Value → List Value)
    (removes : (vs : List Value) → remove_nils vs ≡ non_nils vs) (s : Std) (g : Generator)
    (core : RendersAsCore g) (sch : Schema) (table : String) (t : Table) (fields : Map Column) where
  -- Of values that can all be bound, BindingInsert makes a statement, and arguments that are not nil.
  pub binding_insert-Yields :
      (data_map : Map Value)
      → (table == "") ≡ false
      → get_table sch table ≡ some t
      → t.columns ≡ some fields
      → IsInsertable t fields data_map
      → Yields (λ r. All IsReady r.1) (binding_insert remove_nils s g sch table (some data_map))
  unfolding binding_insert
  binding_insert-Yields data_map nonempty found has insertable =
      rw (nonempty, found, has, binding_insert)
        (Yields-next (λ lists. All IsArgument lists.2) (λ r. All IsReady r.1)
          (core_binding_insert s g t fields data_map)
          (λ lists. ok (insert_statement remove_nils g t (override_name t.name table) lists))
          (core_binding_insert-Yields s g core t fields data_map insertable)
          (λ lists arguments. rw (removes lists.2) (non_nils-IsReady lists.2 arguments)))
