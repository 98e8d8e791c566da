-- ===== src/Core/Insert/Exactly.antt =====
-- Exactly which objects an INSERT (adapters/core/insert.go) can be made of.
use dyndao.Base.{
  String, ◌≡◌, ◌↔◌, refl, true, false, some, List, [], ◌∷◌, ◌==◌, Option-cases, inl, inr, arith,
}
use dyndao.Base.Map.{Map, lookup}
use dyndao.Base.Outcome.{Outcome, ok, err, panic, is_ok, ◌>>=◌}
use dyndao.Value.{
  Value, nil, bool, string, int, int32, int64, uint64, float64, null_string, null_string_ptr, time,
  time_ptr, sql_value, sql_value_ptr, gjson_result, named, out, other, Std,
}
use dyndao.Schema.{Column, Table, Schema, get_table, get_column_name}
use dyndao.SqlGen.{Generator}
use dyndao.Core.Insert.{insert_value, core_binding_insert, binding_insert, render_insert_value}
use dyndao.Core.Insert.Counts.{RendersAsCore, non_nils}
use dyndao.Core.Insert.Bindable.{IsBindable, IsInsertable, Yields, binding_insert-Yields}

is_ok-first :
    {A B : Type 0} (r : Outcome A) (f : A → Outcome B) → is_ok (r >>= f) ≡ true → is_ok r ≡ true
is_ok-first (ok a) f h = refl
is_ok-first (err e) f h = h
is_ok-first (panic p) f h = h

Yields-is_ok : {A : Type 0} (P : A → Type 0) (r : Outcome A) → Yields P r → is_ok r ≡ true
Yields-is_ok P (ok a) h = refl
Yields-is_ok P (err e) h = absurd h
Yields-is_ok P (panic p) h = absurd h

module _ (s : Std) (g : Generator) (core : RendersAsCore g) where
  insert_value-IsBindable :
      (f : Column) (v : Value) → is_ok (insert_value s g f v) ≡ true → IsBindable v
  unfolding insert_value render_insert_value
  insert_value-IsBindable f nil h = tt
  insert_value-IsBindable f (sql_value t) h = tt
  insert_value-IsBindable f (sql_value_ptr a t) h = tt
  insert_value-IsBindable f (string t) h = tt
  insert_value-IsBindable f (int n) h = tt
  insert_value-IsBindable f (int32 n) h = tt
  insert_value-IsBindable f (int64 n) h = tt
  insert_value-IsBindable f (uint64 n) h = tt
  insert_value-IsBindable f (float64 x) h = tt
  insert_value-IsBindable f (bool b) h = grind (arith, h, core.values s f (bool b))
  insert_value-IsBindable f (null_string t) h = grind (arith, h, core.values s f (null_string t))
  insert_value-IsBindable f (null_string_ptr a t) h =
      grind (arith, h, core.values s f (null_string_ptr a t))
  insert_value-IsBindable f (time t) h = grind (arith, h, core.values s f (time t))
  insert_value-IsBindable f (time_ptr a t) h = grind (arith, h, core.values s f (time_ptr a t))
  insert_value-IsBindable f (gjson_result n) h = grind (arith, h, core.values s f (gjson_result n))
  insert_value-IsBindable f (named n v) h = grind (arith, h, core.values s f (named n v))
  insert_value-IsBindable f out h = grind (arith, h, core.values s f out)
  insert_value-IsBindable f (other n i) h = grind (arith, h, core.values s f (other n i))

  core_binding_insert-IsInsertable :
      (t : Table) (fields : Map Column) (data_map : Map Value)
      → is_ok (core_binding_insert s g t fields data_map) ≡ true
      → IsInsertable t fields data_map
  unfolding core_binding_insert
  core_binding_insert-IsInsertable t fields [] h = tt
  core_binding_insert-IsInsertable t fields ((k, v) ∷ rest) h =
      elim (Option-cases (lookup (get_column_name t k) fields)) [
        | inl missing ↦ absurd (grind (arith, h, missing))
        | inr (f, found) ↦ (
          ((f, found), insert_value-IsBindable f v (grind (arith, h, found))),
          core_binding_insert-IsInsertable t fields rest (grind (arith, h, found)),
        )
      ]

module _ (remove_nils : List Value → List Value)
    (removes : (vs : List Value) → remove_nils vs ≡ non_nils vs) (s : Std) (g : Generator)
    (core : RendersAsCore g) (sch : Schema) (table : String) (t : Table) (fields : Map Column) where
  -- Where the table and its columns are found and values are rendered as in adapters/core,
  -- BindingInsert makes a statement exactly when every key of the object names a column and every value
  -- is nil, an SQLValue, a string, an int, int32, int64 or uint64, or a float64. With any other value,
  -- such as a time.Time, a bool or an sql.NullString, it fails.
  pub binding_insert_iff :
      (data_map : Map Value)
      → (table == "") ≡ false
      → get_table sch table ≡ some t
      → t.columns ≡ some fields
      → (is_ok (binding_insert remove_nils s g sch table (some data_map)) ≡ true)
        ↔ IsInsertable t fields data_map
  unfolding binding_insert
  binding_insert_iff data_map nonempty found has = (
    λ h.
        core_binding_insert-IsInsertable s g core t fields data_map
          (grind (arith, h, nonempty, found, has)),
    λ h. Yields-is_ok _ _ (
        binding_insert-Yields remove_nils removes s g core sch table t fields data_map nonempty
          found has h),
  )
