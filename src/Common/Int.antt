-- ===== src/Common/Int.antt =====
-- Signed integers over the native numbers, and the conversion of an int64_t to an int32_t.
use samconf.Common.Tests.{ltb, if◌then◌else◌}
use Prim.Native.Nat.{ℕ, ◌-◌, ◌%◌, ◌^◌, ◌<◌}
use mathlib.Core.Path.{◌≡◌}
use native.Mathlib.Omega.{arith}

-- `negsuc n` is -(n + 1).
pub data ℤ : Type 0 where
  pos : ℕ → ℤ
  negsuc : ℕ → ℤ

-- The low 32 bits of the two's complement of an integer.
abbrev pub low32 : ℤ → ℕ
low32 (pos n) = n % 2 ^ 32
low32 (negsuc n) = 2 ^ 32 - 1 - n % 2 ^ 32

-- The int32_t with given bits.
abbrev pub of_bits32 : ℕ → ℤ
of_bits32 b = if ltb b (2 ^ 31) then pos b else negsuc (2 ^ 32 - 1 - b)

-- The assignment of an int64_t to an int32_t, which keeps the low bits.
unfoldable pub to_int32 : ℤ → ℤ
to_int32 z = of_bits32 (low32 z)

-- The integer is in the range of an int32_t.
abbrev pub FitsInt32 : ℤ → Type 0
FitsInt32 (pos n) = n < 2 ^ 31
FitsInt32 (negsuc n) = n < 2 ^ 31

pub to_int32_of_FitsInt32 : (z : ℤ) → FitsInt32 z → to_int32 z ≡ z
unfolding to_int32
to_int32_of_FitsInt32 (pos n) h = ground arith
to_int32_of_FitsInt32 (negsuc n) h = ground arith

pub to_int32-FitsInt32 : (z : ℤ) → FitsInt32 (to_int32 z)
unfolding to_int32
to_int32-FitsInt32 (pos n) = ground arith
to_int32-FitsInt32 (negsuc n) = ground arith
