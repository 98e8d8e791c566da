-- ===== src/Jsonmapper/Experiments/Laws.antt =====
-- What jsonmapper/experiments/mapper.go relies on of sjson and gjson, and what its loop over an
-- object's values leaves in a JSON text.
use dyndao.Base.{
  String, ◌<>◌, false, Option, none, some, List, [], ◌∷◌, ◌≡◌, refl, ap, ◌∙◌, ◌≢◌, map, inl, inr,
  Bool-cases, All, ◌==◌, eq_iff, arith,
}
use dyndao.Base.Map.{Map, IsMap, lookup, contains}
use dyndao.Base.Outcome.{Outcome, ok}
use dyndao.Value.{Value}
use dyndao.Schema.{Column}
use dyndao.Jsonmapper.Experiments.Paths.{Packages, set_values}

-- `get` is gjson.Get; the laws are on paths of `t` and a plain name. A plain name holds no character
-- that means something in a path, and a value is kept if JSON has a text for it, of which `decoded`
-- comes back.
pub record PathLaws (go : Packages) (t : String) : Type 1 where
  pub get : String → String → Option Value
  pub decoded : Value → Value
  pub IsDocument : String → Type 0
  pub IsPlain : String → Type 0
  pub IsKept : Value → Type 0
  pub get_each :
      (json : String) (paths : List String) → go.get_many json paths ≡ map (get json) paths
  pub empty_document : IsDocument "{}"
  pub get_empty : (path : String) → get "{}" path ≡ none
  pub set_found :
      (json name : String) (v : Value)
      → IsDocument json
      → IsPlain name
      → IsKept v
      → (after : String) × (go.set_path json ((t <> ".") <> name) v ≡ ok after)
        × IsDocument after
        × (get after (t <> "." <> name) ≡ some (decoded v))
        × ((apart : String)
            → IsPlain apart
            → name ≢ apart
            → get after (t <> "." <> apart) ≡ get json (t <> "." <> apart))

module _ (go : Packages) (t : String) (laws : PathLaws go t) (source : Column → String)
    (columns : Map Column) where
  -- Every column reads from a plain name of its own.
  pub record HasSources : Type 0 where
    pub sources_named : All (λ e. (source e.1 == "") ≡ false) columns
    pub sources_plain :
        (k : String) (c : Column) → lookup k columns ≡ some c → laws.IsPlain (source c)
    pub sources_apart :
        (k j : String) (c d : Column)
        → lookup k columns ≡ some c
        → lookup j columns ≡ some d
        → k ≢ j
        → source c ≢ source d

  -- An entry of an object that can be written: its key is a column, and its value is kept.
  abbrev pub Writable : String × Value → Type 0
  Writable (k, v) = (c : Column) × (lookup k columns ≡ some c) × laws.IsKept v

  -- What is read where an object may have been written
  abbrev pub overwritten : Option Value → Option Value → Option Value
  overwritten none old = old
  overwritten (some v) old = some (laws.decoded v)

  -- The text that the loop leaves: every column reads what the object holds, or what it read before.
  abbrev pub Leaves : Map Value → String → Outcome String → Type 0
  Leaves kv json r =
      (after : String) × (r ≡ ok after)
      × ((k : String) (c : Column)
          → lookup k columns ≡ some c
          → laws.get after (t <> "." <> source c)
            ≡ overwritten (lookup k kv) (laws.get json (t <> "." <> source c)))

  -- One value more, in front of what the rest of the loop writes
  one_more :
      (k : String) (v : Value) (kv : Map Value) (c : Column) (json between after : String)
      → HasSources
      → contains k kv ≡ false
      → lookup k columns ≡ some c
      → laws.get between (t <> "." <> source c) ≡ some (laws.decoded v)
      → ((apart : String)
          → laws.IsPlain apart
          → source c ≢ apart
          → laws.get between (t <> "." <> apart) ≡ laws.get json (t <> "." <> apart))
      → (j : String) (d : Column) → lookup j columns ≡ some d
      → laws.get after (t <> "." <> source d)
        ≡ overwritten (lookup j kv) (laws.get between (t <> "." <> source d))
      → laws.get after (t <> "." <> source d)
        ≡ overwritten (lookup j ((k, v) ∷ kv)) (laws.get json (t <> "." <> source d))
  unfolding lookup contains
  one_more k v kv c json between after sources unique known written others j d e rest =
      elim (Bool-cases (k == j)) [
        | inl same ↦ rw same (rest ∙ grind (arith, eq_iff k j, known, e, written, unique))
        | inr apart ↦ rw apart (
            rest
            ∙ ap (overwritten (lookup j kv)) (
                others (source d) (sources.sources_plain j d e)
                  (sources.sources_apart k j c d known e (λ p. grind (arith, eq_iff k j)))))
      ]

  pub set_values-Leaves :
      (kv : Map Value) (json : String)
      → HasSources
      → laws.IsDocument json
      → IsMap kv
      → All Writable kv
      → Leaves kv json (set_values go source columns (t <> ".") kv json)
  unfolding set_values lookup
  set_values-Leaves [] json sources document unique kept = (json, refl, λ k c e. refl)
  set_values-Leaves ((k, v) ∷ kv) json sources document unique kept =
      let (c, known, keeps) = kept.0 in
      let (between, e, now, written, others) =
        laws.set_found json (source c) v document (sources.sources_plain k c known) keeps in
      let (after, r, holds) = set_values-Leaves kv between sources now unique.1 kept.1 in
      rw (set_values, known, e)
        (
          after,
          r,
          λ j d column.
              one_more k v kv c json between after sources unique.0 known written others j d column
                (holds j d column),
        )
