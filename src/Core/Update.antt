-- ===== src/Core/Update.antt =====
-- adapters/core/update.go
pub mod Builds
pub mod Lists
pub mod Saved
pub mod Meaning
use dyndao.Base.{
  ℕ, zero, suc, ◌+◌, ◌-◌, String, ◌<>◌, Bool, true, false, ◌||◌, Option, none, some, List, [], ◌∷◌,
  length, join, ltb, eqb, map, replicate, if◌then◌else◌, or_else,
}
use dyndao.Base.Map.{Map, lookup, keys}
use dyndao.Base.Outcome.{Outcome, ok, err, panic, message, ◌>>=◌}
use dyndao.Value.{
  Value, nil, string, time, time_ptr, sql_value_ptr, Time, Std, is_zero, is_nil, format_uint,
}
use dyndao.Schema.{Column, Table, Schema, get_table, get_column, override_name}
use dyndao.Object.{Object, get}
use dyndao.SqlGen.{Generator}
use dyndao.Core.Where.{render_update_where_clause}

unfoldable pub zero_time : Value → Bool
zero_time (time t) = is_zero t
zero_time (time_ptr _ none) = true
zero_time (time_ptr _ (some t)) = is_zero t
zero_time _ = false

unfoldable pub sql_value_convert : Value → String × Bool
sql_value_convert (sql_value_ptr _ t) = (t, true)
sql_value_convert _ = ("", false)

parsed : Outcome Time → Outcome Time
parsed (ok t) = ok t
parsed (err e) = panic "time.Parse"
parsed (panic p) = panic p

unfoldable pub safe_convert : Std → Value → Outcome Time
unfolding parsed
safe_convert s (string t) = parsed (s.parse_time t)
safe_convert s (time t) = ok t
safe_convert s (time_ptr _ (some t)) = ok t
safe_convert s (time_ptr _ none) = panic "nil pointer dereference"
safe_convert s _ = panic "unknown type in safe convert"

-- What one column contributes to the SET list, with its bind argument; both loops have this body,
-- and differ in the placeholder.
unfoldable pub set_column : Std → Generator → Column → String → Value → Outcome (String × Value)
set_column s g f placeholder v =
    let (text, was_sv) = sql_value_convert v in
    if was_sv then ok (f.name <> " = " <> text, nil) else do
      w ←
          if g.classes.is_timestamp_type f.db_type
          then (do t ← safe_convert s v; ok (time t))
          else ok v
      ok (
          if is_nil w || zero_time w
          then (f.name <> " = NULL", nil)
          else (f.name <> " = " <> placeholder, w))

-- Both loops of `BindingUpdate`: `n` is the length of the two slices, which start as empty texts
-- and nils, and `i` the next free index. An identity column is passed over and uses no index.
set_list :
    Std
    → Generator
    → Table
    → String
    → (Column → ℕ → String)
    → ℕ
    → ℕ
    → Map Value
    → Outcome (List String × List Value)
set_list s g t type_name placeholder n i [] = ok (replicate (n - i) "", replicate (n - i) nil)
set_list s g t type_name placeholder n i ((k, v) ∷ rest) =
    let skipped = set_list s g t type_name placeholder n i rest in
    let others = set_list s g t type_name placeholder n (suc i) rest in
    elim (get_column t k) [
      | none ↦ err (
          message (
            "BindingUpdate: field config unavailable for object Type: " <> type_name <> ", key: "
            <> k))
      | some f ↦ if f.is_identity then skipped else do
        (text, arg) ← set_column s g f (placeholder f i) v
        (texts, args) ← if ltb i n then others else panic "index out of range"
        ok (text ∷ texts, arg ∷ args)
    ]

-- The entries that the first loop visits: `for k := range obj.ChangedColumns`, with `obj.KV[k]`
abbrev pub entries_of : Object → List String → Map Value
entries_of o [] = []
entries_of o (k ∷ ks) = (k, get k o) ∷ entries_of o ks

abbrev pub changed_entries : Object → Map Value
changed_entries o = entries_of o (keys o.changed_columns)

-- The placeholder of the second loop: `%s%d`
abbrev numbered : Generator → Column → ℕ → String
numbered g f i = g.render_binding_value f <> format_uint i

-- The two branches of `BindingUpdate`: only the changed columns, or every column. The second
-- makes slices of length len(KV) - 1, which panics on an empty KV.
unfoldable pub update_lists : Std → Generator → Table → Object → Outcome (List String × List Value)
unfolding set_list
update_lists s g t o =
    if ltb 0 (length o.changed_columns)
    then set_list s g t o.object_type g.render_binding_value_with_int (length o.changed_columns) 0
        (changed_entries o)
    else if eqb (length o.kv) 0
    then panic "makeslice: len out of range"
    else set_list s g t o.object_type (numbered g) (length o.kv - 1) 0 o.kv

-- The statement, its arguments and those of the WHERE clause
unfoldable pub binding_update :
    (List Value → List Value)
    → Std
    → Generator
    → Schema
    → Object
    → Outcome (String × List Value × List Value)
unfolding update_lists
binding_update remove_nils s g sch o = elim (get_table sch o.object_type) [
  | none ↦ err (message ("BindingUpdate: Table map unavailable for table " <> o.object_type))
  | some t ↦ elim t.columns [
    | none ↦ err (message ("BindingUpdate: Column map unavailable for table " <> o.object_type))
    | some fields ↦ do
      (clause, where_args) ← render_update_where_clause g t fields o
      (texts, args) ← update_lists s g t o
      ok (
        "UPDATE "
            <> override_name t.name o.object_type
            <> " SET "
            <> join texts ","
            <> " WHERE "
            <> clause,
        remove_nils args,
        where_args,
      )
  ]
]
