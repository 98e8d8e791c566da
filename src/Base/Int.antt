-- ===== src/Base/Int.antt =====
-- Signed machine integers, and the conversions between `int64` and `uint64`.
use Prim.Native.Nat.{ℕ, ◌-◌, ◌%◌, ◌^◌, ◌<◌}
use mathlib.Core.Path.{◌≡◌}
use mathlib.Core.Bool.{Bool, false}
use native.Mathlib.Omega.{arith}
use dyndao.Base.Tests.{ltb, eqb, if◌then◌else◌}

-- `negsuc n` is -(n + 1).
pub data ℤ : Type 0 where
  pos : ℕ → ℤ
  negsuc : ℕ → ℤ

abbrev pub eqb_ℤ : ℤ → ℤ → Bool
eqb_ℤ (pos m) (pos n) = eqb m n
eqb_ℤ (negsuc m) (negsuc n) = eqb m n
eqb_ℤ _ _ = false

abbrev pub InInt64 : ℤ → Type 0
InInt64 (pos n) = n < 2 ^ 63
InInt64 (negsuc n) = n < 2 ^ 63

-- `uint64(x)` for an int64 x
unfoldable pub to_uint64 : ℤ → ℕ
to_uint64 (pos n) = n % 2 ^ 64
to_uint64 (negsuc n) = 2 ^ 64 - 1 - n % 2 ^ 64

-- `int64(x)` for a uint64 x
unfoldable pub to_int64 : ℕ → ℤ
to_int64 n = let m = n % 2 ^ 64 in if ltb m (2 ^ 63) then pos m else negsuc (2 ^ 64 - 1 - m)

pub to_int64-to_uint64 : (z : ℤ) → InInt64 z → to_int64 (to_uint64 z) ≡ z
unfolding to_int64 to_uint64
to_int64-to_uint64 (pos n) h = ground arith
to_int64-to_uint64 (negsuc n) h = ground arith

pub to_uint64-to_int64 : (n : ℕ) → n < 2 ^ 64 → to_uint64 (to_int64 n) ≡ n
unfolding to_int64 to_uint64
to_uint64-to_int64 n h = ground arith
