-- ===== src/Base/Entries.antt =====
-- Properties of the entries of a map.
use Prim.Native.String.{String}
use mathlib.Core.Path.{◌≡◌}
use mathlib.Core.Logic.{inl, inr}
use mathlib.Core.Option.{some}
use mathlib.Core.List.{[], ◌∷◌}
use text.Mathlib.Text.{◌==◌}
use dyndao.Base.Tests.{Bool-cases}
use dyndao.Base.Lists.{All}
use dyndao.Base.Map.{Map, lookup, insert}

pub All-insert :
    {V : Type 0} (P : String × V → Type 0) (k : String) (v : V) (m : Map V)
    → P (k, v)
    → All P m
    → All P (insert k v m)
unfolding insert
All-insert P k v [] p h = (p, tt)
All-insert P k v ((j, w) ∷ m) p h = elim (Bool-cases (j == k)) [
  | inl same ↦ rw (same, insert) (p, h.1)
  | inr apart ↦ rw (apart, insert) (h.0, All-insert P k v m p h.1)
]

pub some-inj : {V : Type 0} {a b : V} → some a ≡ some b → a ≡ b
some-inj e = cc e

pub lookup-All :
    {V : Type 0} (P : V → Type 0) (k : String) (v : V) (m : Map V)
    → All (λ e. P e.1) m
    → lookup k m ≡ some v
    → P v
unfolding lookup
lookup-All P k v [] h e = cc
lookup-All P k v ((j, w) ∷ m) h e = elim (Bool-cases (j == k)) [
  | inl same ↦ rw (some-inj (rw (same, lookup) at e)) at h.0
  | inr apart ↦ lookup-All P k v m h.1 (rw (apart, lookup) at e)
]
