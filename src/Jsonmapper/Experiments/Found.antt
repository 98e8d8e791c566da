-- ===== src/Jsonmapper/Experiments/Found.antt =====
-- What `ToObjectFromJSON` of jsonmapper/experiments/mapper.go makes of the values that it finds.
use dyndao.Base.{
  String, ◌<>◌, true, false, Option, none, some, [], ◌∷◌, ◌≡◌, refl, ap, ◌∙◌, map, All, ◌==◌,
  eq_iff, if◌then◌else◌, arith,
}
use dyndao.Base.Map.{Map, IsMap, lookup, contains, lookup-insert}
use dyndao.Base.Outcome.{Outcome, ok}
use dyndao.Value.{Value, Std}
use dyndao.Schema.{Column}
use dyndao.Object.{Object, get, set}
use dyndao.Jsonmapper.Experiments.Read.{list_sources, set_found}

-- The paths of all columns, in the order of the columns
abbrev pub paths : (Column → String) → String → Map Column → Map String
paths source path_prefix [] = []
paths source path_prefix ((k, c) ∷ columns) =
    (k, path_prefix <> "." <> source c) ∷ paths source path_prefix columns

pub list_sources-paths :
    (source : Column → String) (path_prefix : String) (columns : Map Column)
    → All (λ e. (source e.1 == "") ≡ false) columns
    → list_sources source path_prefix columns ≡ ok (paths source path_prefix columns)
unfolding list_sources
list_sources-paths source path_prefix [] named = refl
list_sources-paths source path_prefix ((k, c) ∷ columns) named =
    rw (named.0, list_sources-paths source path_prefix columns named.1) refl

-- A key without a value takes a value, and nothing but that and the dirty flag changes.
set_new :
    (s : Std) (k j : String) (v : Value) (o : Object)
    → lookup k o.kv ≡ none
    → (lookup j (set s k v o).kv ≡ (if k == j then some v else lookup j o.kv))
      × ((set s k v o).object_type ≡ o.object_type)
      × ((set s k v o).children ≡ o.children)
      × ((set s k v o).changed_columns ≡ o.changed_columns)
unfolding get set
set_new s k j v o fresh = ground (arith, fresh, lookup-insert k j v o.kv)

-- What a key holds after the loop: the value found for it, if any, or what it held before
abbrev pub taken : Option (Option Value) → Option Value → Option Value
taken none old = old
taken (some none) old = old
taken (some (some v)) old = some v

abbrev pub Takes : Map (Option Value) → Object → Outcome Object → Type 0
Takes found obj r =
    (after : Object) × (r ≡ ok after)
    × (after.object_type ≡ obj.object_type)
    × (after.children ≡ obj.children)
    × ((k : String) → lookup k after.kv ≡ taken (lookup k found) (lookup k obj.kv))

pub set_found-Takes :
    (s : Std) (found : Map (Option Value)) (obj : Object)
    → IsMap found
    → ((k : String) → contains k found ≡ true → lookup k obj.kv ≡ none)
    → Takes found obj (set_found s (map (λ e. e.0) found) (map (λ e. e.1) found) obj)
unfolding set_found lookup contains
set_found-Takes s [] obj unique fresh = (obj, refl, refl, refl, λ k. refl)
set_found-Takes s ((k, none) ∷ found) obj unique fresh =
    let (after, r, typed, kept, holds) =
      set_found-Takes s found obj unique.1 (λ j p. ground (arith, fresh j, p, unique)) in
    (after, r, typed, kept, λ j. holds j ∙ ground (arith, eq_iff k j, unique))
set_found-Takes s ((k, some v) ∷ found) obj unique fresh =
    let own : lookup k obj.kv ≡ none = fresh k (ground (arith, eq_iff k k)) in
    let (after, r, typed, kept, holds) =
      set_found-Takes s found (set s k v obj) unique.1
        (λ j p. (set_new s k j v obj own).0 ∙ ground (arith, eq_iff k j, fresh j, p, unique)) in
    (
      after,
      r,
      typed ∙ (set_new s k k v obj own).1,
      kept ∙ (set_new s k k v obj own).2,
      λ j.
          holds j
          ∙ ap (taken (lookup j found)) (set_new s k j v obj own).0
          ∙ ground (arith, eq_iff k j, unique, own),
    )
