-- ===== src/Core/Where/Order.antt =====
-- A WHERE clause (adapters/core/render_where.go) as a collection of conditions: the order in which
-- Go ranges over the object's values only orders them.
use mathlib.Core.List.{Permᴰ}
use dyndao.Base.{
  ℕ, zero, suc, String, ◌<>◌, ◌≡◌, refl, ap, ◌∙◌, Bool, true, false, Option, none, some, List, [],
  ◌∷◌, map, join, length, eqb, if◌then◌else◌, Option-cases, inl, inr, arith,
}
use dyndao.Base.Map.{Map}
use dyndao.Base.Outcome.{Outcome, ok, err, panic, message, ◌>>=◌}
use dyndao.Base.Traverse.{traverse, traverse-Permᴰ, SameVia, made, made-made}
use dyndao.Value.{Value}
use dyndao.Schema.{Table, get_column}
use dyndao.Object.{Object}
use dyndao.SqlGen.{Generator}
use dyndao.Core.Where.{equals, where_keys, render_where_clause}

-- A condition and its argument
abbrev pub Condition : Type 0
Condition = String × Value

-- The conditions, joined, and the arguments
abbrev pub clause_of : List Condition → String × List Value
clause_of conditions = (join (map (λ c. c.0) conditions) " AND ", map (λ c. c.1) conditions)

abbrev lists_of : List Condition → List String × List Value
lists_of conditions = (map (λ c. c.0) conditions, map (λ c. c.1) conditions)

abbrev joined : List String × List Value → String × List Value
joined lists = (join lists.0 " AND ", lists.1)

module _ (g : Generator) (t : Table) where
  -- The condition of one value, on its own
  pub condition : String → String × Value → Outcome Condition
  condition type_name (k, v) = elim (get_column t k) [
    | none ↦
        err
          (message ("dyndao: RenderWhereClause: unknown field " <> k <> " in table " <> type_name))
    | some f ↦ ok (equals g f, v)
  ]

  cons_condition :
      (c : Condition) (r : Outcome (List Condition))
      → (made lists_of r >>= λ (names, args). ok (c.0 ∷ names, c.1 ∷ args))
        ≡ made lists_of (r >>= λ cs. ok (c ∷ cs))
  cons_condition c (ok cs) = refl
  cons_condition c (err e) = refl
  cons_condition c (panic p) = refl

  where_keys-traverse :
      (type_name : String) (kv : Map Value)
      → where_keys g t type_name kv ≡ made lists_of (traverse (condition type_name) kv)
  unfolding where_keys condition
  where_keys-traverse type_name [] = refl
  where_keys-traverse type_name ((k, v) ∷ rest) = elim (Option-cases (get_column t k)) [
    | inl missing ↦ rw (missing, where_keys, condition) refl
    | inr (f, found) ↦
        rw (found, where_keys, condition, where_keys-traverse type_name rest)
          (cons_condition (equals g f, v) (traverse (condition type_name) rest))
  ]

  clause-traverse :
      (name : String) (kv : Map Value)
      → (if eqb (length kv) 0
          then ok ("", [])
          else where_keys g t name kv >>= λ (names, args). ok (join names " AND ", args))
        ≡ made clause_of (traverse (condition name) kv)
  unfolding dyndao.Base.Lists.join
  clause-traverse name [] = refl
  clause-traverse name (entry ∷ rest) =
      let filled : eqb (length (entry ∷ rest)) 0 ≡ false = ground arith in
      rw (filled, where_keys-traverse name (entry ∷ rest))
        (made-made lists_of joined (traverse (condition name) (entry ∷ rest)))

  render_where_clause-traverse :
      (o : Object)
      → render_where_clause g t o ≡ made clause_of (traverse (condition o.object_type) o.kv)
  unfolding render_where_clause
  render_where_clause-traverse o = clause-traverse o.object_type o.kv

-- Whichever way Go ranges over the values of an object, its WHERE clause joins one condition for each
-- value, which tests the column of the value's key, with the value as its argument, in the order of the
-- range, and it fails where a key names no column. In two orders of the same values it fails both
-- times, or it has the same conditions up to order.
pub where_order_irrelevant :
    (g : Generator) (t : Table) (o : Object) (again : Map Value)
    → Permᴰ o.kv again
    → SameVia clause_of
        (condition g t o.object_type)
        o.kv
        again
        (render_where_clause g t o)
        (render_where_clause g t (record o { kv = again }))
where_order_irrelevant g t o again same = (
  render_where_clause-traverse g t o,
  render_where_clause-traverse g t (record o { kv = again }),
  traverse-Permᴰ (condition g t o.object_type) same,
)
