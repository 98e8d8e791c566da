-- ===== src/Core/Where.antt =====
pub mod Order
-- adapters/core/render_where.go
use dyndao.Base.{
  ℕ, String, ◌<>◌, none, some, List, [], ◌∷◌, length, join, eqb, if◌then◌else◌, or_else,
}
use dyndao.Base.Map.{Map, lookup}
use dyndao.Base.Outcome.{Outcome, ok, err, panic, message, ◌>>=◌}
use dyndao.Value.{Value, is_nil}
use dyndao.Schema.{Column, Table, get_column}
use dyndao.Object.{Object, get}
use dyndao.SqlGen.{Generator}

abbrev pub equals : Generator → Column → String
equals g f = f.name <> " = " <> g.render_binding_value f

-- The primary key of an UPDATE: `fieldsMap[schTable.Primary]`, which panics on a missing column
primary_clause : Generator → Table → Map Column → Object → Outcome (String × Value)
primary_clause g t fields o = elim (lookup t.primary fields) [
  | none ↦ panic "nil pointer dereference"
  | some f ↦
      if is_nil (get t.primary o)
      then err (message ("dyndao: RenderUpdateWhereClause: missing primary key " <> t.primary))
      else ok (equals g f, get t.primary o)
]

-- The foreign keys of a composite key: a missing value is bound as nil.
foreign_clauses : Generator → Map Column → Object → List String → Outcome (List String × List Value)
foreign_clauses g fields o [] = ok ([], [])
foreign_clauses g fields o (k ∷ ks) =
    let rest = foreign_clauses g fields o ks in
    elim (lookup k fields) [
      | none ↦ panic "nil pointer dereference"
      | some f ↦ do (names, args) ← rest; ok (equals g f ∷ names, get k o ∷ args)
    ]

unfoldable pub render_update_where_clause :
    Generator → Table → Map Column → Object → Outcome (String × List Value)
unfolding primary_clause foreign_clauses
render_update_where_clause g t fields o =
    if eqb (length o.kv) 0
    then ok ("", [])
    else if t.multi_key
    then (do
      (clause, pk) ← primary_clause g t fields o
      (clauses, fks) ← foreign_clauses g fields o (or_else [] t.foreign_keys)
      ok (join (clause ∷ clauses) " AND ", pk ∷ fks))
    else do (clause, pk) ← primary_clause g t fields o; ok (clause, pk ∷ [])

-- The loop of `RenderWhereClause`
where_keys : Generator → Table → String → Map Value → Outcome (List String × List Value)
where_keys g t type_name [] = ok ([], [])
where_keys g t type_name ((k, v) ∷ rest) =
    let others = where_keys g t type_name rest in
    elim (get_column t k) [
      | none ↦
          err (
            message ("dyndao: RenderWhereClause: unknown field " <> k <> " in table " <> type_name))
      | some f ↦ do (names, args) ← others; ok (equals g f ∷ names, v ∷ args)
    ]

unfoldable pub render_where_clause : Generator → Table → Object → Outcome (String × List Value)
unfolding where_keys
render_where_clause g t o =
    if eqb (length o.kv) 0
    then ok ("", [])
    else do (names, args) ← where_keys g t o.object_type o.kv; ok (join names " AND ", args)

unfoldable pub render_binding_value : Column → String
render_binding_value f = "?"

unfoldable pub render_binding_value_with_int : Column → ℕ → String
render_binding_value_with_int f i = "?"
