-- ===== src/Base/Map.antt =====
-- A Go map with string keys: its entries, in the order in which a `range` statement visits them.
-- The runtime leaves that order open, and every theorem holds for every list.
use Prim.Native.String.{String}
use mathlib.Core.Path.{◌≡◌, refl}
use mathlib.Core.Logic.{◌≢◌}
use mathlib.Core.Option.{Option, none, some}
use mathlib.Core.List.{List, [], ◌∷◌, map}
use mathlib.Core.Bool.{Bool, false}
use native.Mathlib.Omega.{arith}
use text.Mathlib.Text.{◌==◌}
use text.Mathlib.TextEquality.{eq_iff}
use dyndao.Base.Tests.{if◌then◌else◌, is_some}

abbrev pub Map {ℓ} : Type ℓ → Type ℓ
Map V = List (String × V)

module _ {ℓ} {V : Type ℓ} where
  -- `v, ok := m[k]`
  unfoldable pub lookup : String → Map V → Option V
  lookup asked [] = none
  lookup asked ((name, val) ∷ rest) = if name == asked then some val else lookup asked rest

  -- `_, ok := m[k]`
  unfoldable pub contains : String → Map V → Bool
  contains k m = is_some (lookup k m)

  -- `m[k] = v`
  unfoldable pub insert : String → V → Map V → Map V
  insert set_name val [] = (set_name, val) ∷ []
  insert set_name val ((name, old) ∷ rest) =
      if name == set_name then (set_name, val) ∷ rest else (name, old) ∷ insert set_name val rest

  -- A nil map reads as an empty one.
  abbrev pub entries : Option (Map V) → Map V
  entries none = []
  entries (some m) = m

  -- What every name reads after an assignment
  pub lookup-insert :
      (set_name asked : String) (val : V) (entries_before : Map V)
      → lookup asked (insert set_name val entries_before)
        ≡ (if set_name == asked then some val else lookup asked entries_before)
  unfolding insert lookup
  lookup-insert set_name asked val ((name, old) ∷ rest) = ground (
    lookup-insert set_name asked val rest,
    eq_iff name asked,
    eq_iff name set_name,
    eq_iff set_name asked,
    arith,
  )
  lookup-insert set_name asked val [] = refl

  pub lookup-insert_self : (k : String) (v : V) (m : Map V) → lookup k (insert k v m) ≡ some v
  lookup-insert_self k v m = ground (arith, lookup-insert k k v m, eq_iff k k)

  pub lookup-insert_ne :
      (k j : String) (v : V) (m : Map V) → k ≢ j → lookup j (insert k v m) ≡ lookup j m
  lookup-insert_ne k j v m h = ground (arith, lookup-insert k j v m, eq_iff k j)

module _ {ℓ} {V : Type ℓ} where
  abbrev pub keys : Map V → List String
  keys = map (λ e. e.0)

  -- No key is listed twice.
  abbrev pub IsMap : Map V → Type 0
  IsMap [] = Unit
  IsMap ((k, v) ∷ m) = (contains k m ≡ false) × IsMap m

  pub insert-IsMap : (k : String) (v : V) (m : Map V) → IsMap m → IsMap (insert k v m)
  unfolding lookup insert contains
  insert-IsMap k v [] h = (refl, tt)
  insert-IsMap k v ((j, w) ∷ m) h =
      ground (arith, eq_iff j k, eq_iff k j, insert-IsMap k v m h.1, lookup-insert k j v m)
