-- ===== src/Core/Insert/Counts.antt =====
-- Columns, placeholders and arguments of an INSERT (adapters/core/insert.go) line up.
use dyndao.Base.{
  ℕ, ◌+◌, String, ◌≡◌, refl, ◌≢◌, Bool, true, false, some, List, [], ◌∷◌, map, All, length, arith,
  ◌==◌, eq_iff, if◌then◌else◌, Option-cases, Bool-cases, inl, inr,
}
use dyndao.Base.Map.{Map, keys, lookup}
use dyndao.Base.Outcome.{Outcome, ok, err, panic, ◌>>=◌}
use dyndao.Value.{
  Value, nil, bool, string, int, int32, int64, uint64, float64, null_string, null_string_ptr, time,
  time_ptr, sql_value, sql_value_ptr, gjson_result, named, out, other, Std, is_nil,
}
use dyndao.Schema.{Column, Table, Schema, get_table, get_column_name, override_name}
use dyndao.SqlGen.{Generator}
use dyndao.Core.Insert.{
  insert_value, core_binding_insert, insert_statement, binding_insert, render_insert_value,
}

-- The generator renders values as adapters/core does: that of SQLite, MySQL or SQL Server.
pub record RendersAsCore (g : Generator) : Type 0 where
  pub placeholder : (f : Column) → g.render_binding_value f ≡ "?"
  pub values :
      (s : Std) (f : Column) (v : Value) → g.render_insert_value s f v ≡ render_insert_value s f v

-- What nils.RemoveNilsIfNeeded returns: the arguments that are not nil.
abbrev pub non_nils : List Value → List Value
non_nils [] = []
non_nils (v ∷ vs) = if is_nil v then non_nils vs else v ∷ non_nils vs

abbrev pub nil_count : Map Value → ℕ
nil_count [] = 0
nil_count ((k, v) ∷ m) = (if is_nil v then 1 else 0) + nil_count m

-- How many bind names are placeholders
abbrev pub marks : List String → ℕ
marks [] = 0
marks (n ∷ ns) = (if n == "?" then 1 else 0) + marks ns

-- An SQL text that is not itself a placeholder
abbrev pub IsPlain : Value → Type 0
IsPlain (sql_value t) = t ≢ "?"
IsPlain (sql_value_ptr _ t) = t ≢ "?"
IsPlain _ = Unit

-- One value: its placeholder, if it has one, stands for its argument or for a nil.
abbrev Tallies : Value → Outcome (String × Value) → Type 0
Tallies v (ok (name, arg)) =
    (if name == "?" then 1 else 0) ≡ (if is_nil arg then 0 else 1) + (if is_nil v then 1 else 0)
Tallies v (err e) = Unit
Tallies v (panic t) = Unit

-- All of them
abbrev TalliesAll : Table → Map Value → Outcome (List String × List String × List Value) → Type 0
TalliesAll t data_map (ok (names, cols, args)) =
    (cols ≡ map (get_column_name t) (keys data_map))
    × (marks names ≡ length (non_nils args) + nil_count data_map)
TalliesAll t data_map (err e) = Unit
TalliesAll t data_map (panic p) = Unit

module _ (s : Std) (g : Generator) (core : RendersAsCore g) where
  float_not_nil :
      (b : Bool) (v w : Value)
      → is_nil v ≡ false
      → is_nil w ≡ false
      → is_nil (if b then v else w) ≡ false
  float_not_nil true v w p q = p
  float_not_nil false v w p q = q

  one_value : (f : Column) (v : Value) → IsPlain v → Tallies v (insert_value s g f v)
  unfolding insert_value render_insert_value
  one_value f nil p = rw (core.placeholder f)
  one_value f (sql_value t) p = ground (arith, eq_iff t "?")
  one_value f (sql_value_ptr a t) p = ground (arith, eq_iff t "?")
  one_value f (string t) p = rw (core.values s f (string t), core.placeholder f)
  one_value f (int n) p = rw (core.values s f (int n), core.placeholder f)
  one_value f (int32 n) p = rw (core.values s f (int32 n), core.placeholder f)
  one_value f (int64 n) p = rw (core.values s f (int64 n), core.placeholder f)
  one_value f (uint64 n) p = rw (core.values s f (uint64 n), core.placeholder f)
  one_value f (float64 x) p = rw (
    core.values s f (float64 x),
    core.placeholder f,
    float_not_nil f.is_number (int64 (s.float_to_int x)) (string (s.format_float x)) refl refl,
  )
  one_value f (bool b) p = rw (core.values s f (bool b)) tt
  one_value f (null_string t) p = rw (core.values s f (null_string t)) tt
  one_value f (null_string_ptr a t) p = rw (core.values s f (null_string_ptr a t)) tt
  one_value f (time t) p = rw (core.values s f (time t)) tt
  one_value f (time_ptr a t) p = rw (core.values s f (time_ptr a t)) tt
  one_value f (gjson_result n) p = rw (core.values s f (gjson_result n)) tt
  one_value f (named n v) p = rw (core.values s f (named n v)) tt
  one_value f out p = rw (core.values s f out) tt
  one_value f (other n i) p = rw (core.values s f (other n i)) tt

  step :
      (t : Table) (k : String) (v : Value) (rest : Map Value) (m : Outcome (String × Value))
      (n : Outcome (List String × List String × List Value))
      → Tallies v m
      → TalliesAll t rest n
      → TalliesAll t ((k, v) ∷ rest) (
          m >>= λ (name, arg).
          n >>= λ (names, cols, args). ok (name ∷ names, get_column_name t k ∷ cols, arg ∷ args))
  step t k v rest (ok (name, arg)) (ok (names, cols, args)) h hs = (rw hs.0 refl, ground arith)
  step t k v rest (ok (name, arg)) (err e) h hs = tt
  step t k v rest (ok (name, arg)) (panic e) h hs = tt
  step t k v rest (err e) n h hs = tt
  step t k v rest (panic e) n h hs = tt

  values-TalliesAll :
      (t : Table) (fields : Map Column) (data_map : Map Value)
      → All (λ e. IsPlain e.1) data_map
      → TalliesAll t data_map (core_binding_insert s g t fields data_map)
  unfolding core_binding_insert
  values-TalliesAll t fields [] p = (refl, refl)
  values-TalliesAll t fields ((k, v) ∷ rest) p =
      elim (Option-cases (lookup (get_column_name t k) fields)) [
        | inl missing ↦ rw (missing, TalliesAll, core_binding_insert) tt
        | inr (f, found) ↦
            rw (found, TalliesAll, core_binding_insert)
              (step t k v rest (insert_value s g f v) (core_binding_insert s g t fields rest)
                (one_value f v p.0) (values-TalliesAll t fields rest p.1))
      ]

-- What BindingInsert made of its lists: the statement's text, and the arguments.
abbrev pub InsertLinesUp : Generator → Table → String → Map Value → String × List Value → Type 0
InsertLinesUp g t table_name data_map (sql, args) =
    (names : List String) × (sql
      ≡ g.binding_insert_sql t table_name (map (get_column_name t) (keys data_map)) names t.primary)
    × (marks names ≡ length args + nil_count data_map)

lists_line_up :
    (remove_nils : List Value → List Value) (g : Generator) (t : Table) (table_name : String)
    (data_map : Map Value) (m : Outcome (List String × List String × List Value)) (sql : String)
    (args : List Value)
    → ((vs : List Value) → remove_nils vs ≡ non_nils vs)
    → TalliesAll t data_map m
    → (m >>= λ lists. ok (insert_statement remove_nils g t table_name lists)) ≡ ok (sql, args)
    → InsertLinesUp g t table_name data_map (sql, args)
lists_line_up remove_nils g t table_name data_map (ok (names, cols, found)) sql args removes tallies
      h =
    (names, rw (← tallies.0) (ground arith), ground (arith, removes found))
lists_line_up remove_nils g t table_name data_map (err e) sql args removes tallies h = cc
lists_line_up remove_nils g t table_name data_map (panic p) sql args removes tallies h = cc

-- For a generator that renders values as the core adapter does, and a RemoveNilsIfNeeded that
-- removes the nils, an INSERT that is built lists the real name of every key in order, and has one
-- placeholder for each argument, and one more for each nil value, which has no argument. The SQL
-- texts among the values are taken not to be a bare placeholder.
pub binding_insert_lines_up :
    (remove_nils : List Value → List Value) (s : Std) (g : Generator) (sch : Schema)
    (table : String) (t : Table) (data_map : Map Value) (sql : String) (args : List Value)
    → RendersAsCore g
    → ((vs : List Value) → remove_nils vs ≡ non_nils vs)
    → All (λ e. IsPlain e.1) data_map
    → get_table sch table ≡ some t
    → binding_insert remove_nils s g sch table (some data_map) ≡ ok (sql, args)
    → InsertLinesUp g t (override_name t.name table) data_map (sql, args)
unfolding binding_insert
binding_insert_lines_up remove_nils s g sch table t data_map sql args core removes plain found
      built =
    elim (Bool-cases (table == "")) [
      | inl empty ↦ cc (rw (empty, binding_insert) at built)
      | inr named_table ↦ elim (Option-cases t.columns) [
        | inl missing ↦ cc (rw (named_table, found, missing, binding_insert) at built)
        | inr (fields, has) ↦
            lists_line_up remove_nils g t (override_name t.name table) data_map
              (core_binding_insert s g t fields data_map) sql args removes
              (values-TalliesAll s g core t fields data_map plain)
              (rw (named_table, found, has, binding_insert) at built)
      ]
    ]
