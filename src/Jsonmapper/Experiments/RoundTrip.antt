-- ===== src/Jsonmapper/Experiments/RoundTrip.antt =====
-- The round trip of jsonmapper/experiments/mapper.go: an object written by `ToJSONFromObject` and read
-- back by `ToObjectFromJSON`.
use mathlib.Core.Option as Option
use dyndao.Base.{
  ℕ, suc, String, ◌<>◌, true, Option, none, some, List, [], ◌∷◌, ◌≡◌, refl, ◌∙◌, map, inl, inr,
  Bool-cases, Option-cases, All, ◌==◌, eq_iff, arith,
}
use dyndao.Base.Map.{Map, IsMap, entries, lookup, contains}
use dyndao.Base.Outcome.{ok}
use dyndao.Value.{Value, Std}
use dyndao.Schema.{Column, Table, Schema}
use dyndao.Object.{Object, new}
use dyndao.Jsonmapper.Experiments.{get_path_prefix}
use dyndao.Jsonmapper.Experiments.Paths.{Packages, to_json_from_object, root_path_of, set_children}
use dyndao.Jsonmapper.Experiments.Read.{to_object_from_json}
use dyndao.Jsonmapper.Experiments.Laws.{
  PathLaws, HasSources, Writable, overwritten, set_values-Leaves,
}
use dyndao.Jsonmapper.Experiments.Found.{paths, list_sources-paths, taken, set_found-Takes}

-- What is found for each column
abbrev found_at :
    (String → Option Value) → (Column → String) → String → Map Column → Map (Option Value)
found_at read source path_prefix [] = []
found_at read source path_prefix ((k, c) ∷ columns) =
    (k, read (path_prefix <> "." <> source c)) ∷ found_at read source path_prefix columns

module _ (read : String → Option Value) (source : Column → String) (path_prefix : String) where
  found_keys :
      (columns : Map Column)
      → map (λ e. e.0) (found_at read source path_prefix columns)
        ≡ map (λ e. e.0) (paths source path_prefix columns)
  found_keys [] = refl
  found_keys ((k, c) ∷ columns) = rw (found_keys columns) refl

  found_values :
      (columns : Map Column)
      → map (λ e. e.1) (found_at read source path_prefix columns)
        ≡ map read (map (λ e. e.1) (paths source path_prefix columns))
  found_values [] = refl
  found_values ((k, c) ∷ columns) = rw (found_values columns) refl

  lookup-found_at :
      (asked : String) (columns : Map Column)
      → lookup asked (found_at read source path_prefix columns)
        ≡ Option.map (λ c. read (path_prefix <> "." <> source c)) (lookup asked columns)
  unfolding lookup
  lookup-found_at asked [] = refl
  lookup-found_at asked ((k, c) ∷ columns) = ground (arith, lookup-found_at asked columns)

  found_at-IsMap :
      (columns : Map Column) → IsMap columns → IsMap (found_at read source path_prefix columns)
  unfolding contains
  found_at-IsMap [] h = tt
  found_at-IsMap ((k, c) ∷ columns) h =
      (rw (lookup-found_at k columns) (ground (arith, h)), found_at-IsMap columns h.1)

module _ (s : Std) (go : Packages) (source : Column → String) (sch : Schema) (f : ℕ) (table : Table)
    (obj : Object) (laws : PathLaws go obj.object_type) where
  abbrev t : String
  t = obj.object_type

  abbrev columns : Map Column
  columns = entries table.columns

  -- Every key reads what it held, as JSON gives it back.
  abbrev pub HoldsDecoded : Map Value → Object → Type 0
  HoldsDecoded kv after = (k : String) → lookup k after.kv ≡ Option.map laws.decoded (lookup k kv)

  abbrev pub ReadBack : List Object → String → Type 0
  ReadBack heap json =
      (after : Object) × (to_object_from_json s go source sch (suc f) "" obj.object_type json heap
        ≡ (ok after, heap))
      × (after.object_type ≡ obj.object_type)
      × HoldsDecoded obj.kv after

  columns_suffice :
      (k : String) (kv : Map Value)
      → All (Writable go t laws source columns) kv
      → lookup k columns ≡ none
      → lookup k kv ≡ none
  unfolding lookup
  columns_suffice k [] known missing = refl
  columns_suffice k ((j, v) ∷ kv) known missing = elim (Bool-cases (j == k)) [
    | inl same ↦ grind (arith, eq_iff j k, known.0.1, missing)
    | inr apart ↦ rw (apart, lookup) (columns_suffice k kv known.1 missing)
  ]

  taken-overwritten :
      (held : Option Value)
      → taken (some (overwritten go t laws source columns held none)) none
        ≡ Option.map laws.decoded held
  taken-overwritten none = refl
  taken-overwritten (some v) = refl

  taken_back :
      (k : String) (kv : Map Value) (json : String)
      → All (Writable go t laws source columns) kv
      → ((c : Column)
          → lookup k columns ≡ some c
          → laws.get json (t <> "." <> source c)
            ≡ overwritten go t laws source columns (lookup k kv) none)
      → taken (Option.map (λ c. laws.get json (t <> "." <> source c)) (lookup k columns)) none
        ≡ Option.map laws.decoded (lookup k kv)
  taken_back k kv json known reads = elim (Option-cases (lookup k columns)) [
    | inl missing ↦ rw (missing, columns_suffice k kv known missing) refl
    | inr (c, found) ↦ rw (found, reads c found) (taken-overwritten (lookup k kv))
  ]

  read_back :
      (heap : List Object) (json : String)
      → lookup obj.object_type sch.tables ≡ some table
      → table.children ≡ []
      → IsMap columns
      → HasSources go t laws source columns
      → All (Writable go t laws source columns) obj.kv
      → ((k : String) (c : Column)
          → lookup k columns ≡ some c
          → laws.get json (obj.object_type <> "." <> source c)
            ≡ overwritten go t laws source columns (lookup k obj.kv) none)
      → ReadBack heap json
  unfolding to_object_from_json get_path_prefix
  read_back heap json here flat unique sources known reads =
      let read = laws.get json in
      let (after, r, typed, kept, holds) =
        set_found-Takes s (found_at read source t columns) (new t)
          (found_at-IsMap read source t columns unique) (λ k p. unfold new in refl) in
      (
        after,
        rw
            (
              to_object_from_json,
              here,
              list_sources-paths source t columns sources.sources_named,
              laws.get_each,
              ← found_values read source t columns,
              ← found_keys read source t columns,
              r,
              flat,
            )
            refl,
        typed ∙ unfold new in refl,
        λ k.
            holds k
            ∙ rw (lookup-found_at read source t k columns)
                (unfold new lookup in taken_back k obj.kv json known (reads k)),
      )

  -- An object without children whose table has no child tables, whose keys are columns with plain
  -- sources of their own, and whose values JSON keeps is written without error, and read back with the
  -- same type and, for every key, what JSON gives back of its value; nothing else is allocated. sjson and
  -- gjson are taken to agree on paths of the table's name and a plain name.
  pub json_round_trip :
      (heap : List Object)
      → lookup obj.object_type sch.tables ≡ some table
      → table.children ≡ []
      → obj.children ≡ []
      → IsMap columns
      → HasSources go t laws source columns
      → IsMap obj.kv
      → All (Writable go t laws source columns) obj.kv
      → (json : String) × (to_json_from_object go source sch (suc f) heap obj "" "" true ≡ ok json)
        × ReadBack heap json
  unfolding to_json_from_object root_path_of set_children
  json_round_trip heap here flat childless unique sources distinct known =
      let (json, r, reads) =
        set_values-Leaves go t laws source columns obj.kv "{}" sources laws.empty_document distinct
          known in
      (
        json,
        rw (to_json_from_object, here, r, childless) refl,
        read_back heap json here flat unique sources known
            (λ k c e. reads k c e ∙ rw (laws.get_empty (obj.object_type <> "." <> source c)) refl),
      )
