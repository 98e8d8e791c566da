-- ===== src/Object/Getters.antt =====
-- The converting accessors of object/object.go.
use dyndao.Base.{ℕ, ◌<◌, ◌^◌, ◌-◌, String, ◌≡◌, refl, ◌↔◌, none, some, arith}
use dyndao.Base.Map.{lookup, lookup-insert_self}
use dyndao.Base.Outcome.{ok, err, panic, key_was_missing, value_was_nil}
use dyndao.Base.Int.{ℤ, pos, negsuc, InInt64, to_uint64, to_int64-to_uint64}
use dyndao.Value.{nil, int64, uint64, Std, format_int}
use dyndao.Object.{
  Object, set_core, get_string_always, get_float_always, get_int_always, get_uint_always,
}

to_uint64_bounds : (n : ℤ) → InInt64 n → to_uint64 n < 2 ^ 64
unfolding to_uint64
to_uint64_bounds (pos m) range = omega (arith, range)
to_uint64_bounds (negsuc m) range = omega (arith, range)

-- The two's complement of an int64 in 64 bits
abbrev pub complement : ℤ → ℕ
complement (pos m) = m
complement (negsuc m) = 2 ^ 64 - 1 - m

to_uint64-complement : (n : ℤ) → InInt64 n → to_uint64 n ≡ complement n
unfolding to_uint64
to_uint64-complement (pos m) range = omega (arith, range)
to_uint64-complement (negsuc m) range = omega (arith, range)

-- An int64 that is read by GetUintAlways gives its two's complement, a number below 2 ^ 64, and stored again as a uint64 it is read back unchanged by GetIntAlways, a negative one too.
pub int_through_uint :
    (s : Std) (k : String) (n : ℤ) (o : Object)
    → InInt64 n
    → lookup k o.kv ≡ some (int64 n)
    → (u : ℕ) × (get_uint_always s k o ≡ ok u)
      × (u < 2 ^ 64)
      × (u ≡ complement n)
      × (get_int_always s k (set_core k (uint64 u) o) ≡ ok n)
unfolding get_uint_always get_int_always set_core
int_through_uint s k n o range e = (
  to_uint64 n,
  rw e refl,
  to_uint64_bounds n range,
  to_uint64-complement n range,
  rw (lookup-insert_self k (uint64 (to_uint64 n)) o.kv, to_int64-to_uint64 n range) refl,
)

-- GetStringAlways reports a missing key exactly when the key is absent, and a nil value exactly
-- when the key holds nil.
pub string_errors :
    (s : Std) (k : String) (o : Object)
    → ((get_string_always s k o ≡ err key_was_missing) ↔ (lookup k o.kv ≡ none))
      × ((get_string_always s k o ≡ err value_was_nil) ↔ (lookup k o.kv ≡ some nil))
unfolding get_string_always
string_errors s k o = ground arith

-- Every int64 is converted by GetStringAlways, GetIntAlways and GetUintAlways, and makes
-- GetFloatAlways panic.
pub int64_panics_as_float :
    (s : Std) (k : String) (n : ℤ) (o : Object)
    → lookup k o.kv ≡ some (int64 n)
    → (get_string_always s k o ≡ ok (format_int n))
      × (get_int_always s k o ≡ ok n)
      × (get_uint_always s k o ≡ ok (to_uint64 n))
      × ((t : String) × (get_float_always s k o ≡ panic t))
unfolding get_string_always get_int_always get_uint_always get_float_always
int64_panics_as_float s k n o e = rw e (refl, refl, refl, (_, refl))
