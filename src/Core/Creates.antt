-- ===== src/Core/Creates.antt =====
-- The CREATE TABLE statements of adapters/core, for the tables of a schema.
use dyndao.Base.{
  String, ◌<>◌, join, Option-cases, inl, inr, ◌≡◌, refl, true, List, [], ◌∷◌, All, is_some, arith,
  eq_iff,
}
use dyndao.Base.Map.{Map, lookup, insert, keys, entries, lookup-insert}
use dyndao.Base.Outcome.{Outcome, ok, err, panic, is_ok, ◌>>=◌}
use dyndao.Value.{Std}
use dyndao.Schema.{Column, Table, Schema, override_name}
use dyndao.SqlGen.{Generator}
use dyndao.Core.Statements.{create_table, render_columns, with_columns}

abbrev pub HasAll : List String → Schema → Type 0
HasAll ks sch = All (λ k. is_some (lookup k sch.tables) ≡ true) ks

still_has :
    (k : String) (t : Table) (tables : Map Table) (ks : List String)
    → All (λ j. is_some (lookup j tables) ≡ true) ks
    → All (λ j. is_some (lookup j (insert k t tables)) ≡ true) ks
still_has k t tables [] has = tt
still_has k t tables (j ∷ ks) (here, has) =
    (ground (arith, lookup-insert k j t tables, here), still_has k t tables ks has)

-- A table is created, and the tables that were there still are.
abbrev pub Creates : Schema → Outcome (String × Schema) → Type 0
Creates sch (ok (text, sch')) = (ks : List String) → HasAll ks sch → HasAll ks sch'
Creates sch (err e) = ⊥
Creates sch (panic p) = ⊥

module _ (s : Std) (g : Generator)
    (renders : (f : Column) → is_ok (g.render_create_column s f) ≡ true) where
  render_columns-ok : (m : Map Column) → is_ok (render_columns s g m) ≡ true
  unfolding render_columns
  render_columns-ok [] = refl
  render_columns-ok ((k, f) ∷ rest) = grind (arith, renders f, render_columns-ok rest)

  with_rendered :
      (sch : Schema) (k text : String) (t : Table) (r : Outcome (List String × Map Column))
      → is_ok r ≡ true
      → Creates sch (
          r >>= λ (texts, cols). ok (
            "CREATE TABLE " <> text <> " (\n\t" <> join texts ",\n" <> "\n)\n",
            record sch { tables = insert k (with_columns cols t) sch.tables },
          ))
  with_rendered sch k text t (ok (texts, cols)) rendered =
      λ ks has. still_has k (with_columns cols t) sch.tables ks has
  with_rendered sch k text t (err e) rendered = cc
  with_rendered sch k text t (panic p) rendered = cc

  pub create_table-Creates :
      (sch : Schema) (k : String)
      → is_some (lookup k sch.tables) ≡ true
      → Creates sch (create_table s g sch k)
  unfolding create_table
  create_table-Creates sch k has = elim (Option-cases (lookup k sch.tables)) [
    | inl missing ↦ cc (rw missing at has)
    | inr (t, found) ↦
        rw (found, create_table)
          (with_rendered sch k (override_name t.name k) t (render_columns s g (entries t.columns))
            (render_columns-ok (entries t.columns)))
  ]

-- Every key of a map is in it.
found_behind :
    {V : Type 0} (j : String) (v : V) (m : Map V) (ks : List String)
    → All (λ k. is_some (lookup k m) ≡ true) ks
    → All (λ k. is_some (lookup k ((j, v) ∷ m)) ≡ true) ks
unfolding lookup
found_behind j v m [] has = tt
found_behind j v m (k ∷ ks) (here, has) = (ground (arith, here), found_behind j v m ks has)

pub keys-found : {V : Type 0} (m : Map V) → All (λ k. is_some (lookup k m) ≡ true) (keys m)
unfolding lookup
keys-found [] = tt
keys-found ((j, v) ∷ m) = (ground (arith, eq_iff j j), found_behind j v m (keys m) (keys-found m))

pub Creates-eq :
    (sch : Schema) (r : Outcome (String × Schema))
    → Creates sch r
    → (text : String) × (sch' : Schema) × (r ≡ ok (text, sch'))
      × ((ks : List String) → HasAll ks sch → HasAll ks sch')
Creates-eq sch (ok (text, sch')) creates = (text, sch', refl, creates)
Creates-eq sch (err e) creates = absurd creates
Creates-eq sch (panic p) creates = absurd creates
