-- ===== src/Prelude/Int.antt =====
-- Signed integers over the native numbers, and the two's complement of a given width.
use Prim.Native.Nat.{ℕ, ◌-◌, ◌*◌, ◌<◌}
use mathlib.Core.Path.{◌≡◌}
use dart_odbc_fast.Prelude.Tests.{ltb, if◌then◌else◌}
use native.Mathlib.Omega.{arith}

-- `negsuc n` is -(n + 1).
pub data ℤ : Type 0 where
  pos : ℕ → ℤ
  negsuc : ℕ → ℤ

-- `half` is 2 ^ (w - 1) for a width of `w` bits.
abbrev pub FitsIn : ℕ → ℤ → Type 0
FitsIn half (pos n) = n < half
FitsIn half (negsuc n) = n < half

-- `n as uN`: the bit pattern of a signed value.
unfoldable pub to_bits : ℕ → ℤ → ℕ
to_bits half (pos n) = n
to_bits half (negsuc n) = 2 * half - 1 - n

-- `u as iN`: the signed value of a bit pattern.
unfoldable pub from_bits : ℕ → ℕ → ℤ
from_bits half u = if ltb u half then pos u else negsuc (2 * half - 1 - u)

pub to_bits-lt : (half : ℕ) (z : ℤ) → FitsIn half z → to_bits half z < 2 * half
unfolding to_bits
to_bits-lt half (pos n) h = omega arith
to_bits-lt half (negsuc n) h = omega arith

pub from_bits-to_bits : (half : ℕ) (z : ℤ) → FitsIn half z → from_bits half (to_bits half z) ≡ z
unfolding to_bits from_bits
from_bits-to_bits half (pos n) h = ground arith
from_bits-to_bits half (negsuc n) h = ground arith

pub to_bits-from_bits : (half u : ℕ) → u < 2 * half → to_bits half (from_bits half u) ≡ u
unfolding to_bits from_bits
to_bits-from_bits half u h = ground arith

pub from_bits-FitsIn : (half u : ℕ) → u < 2 * half → FitsIn half (from_bits half u)
unfolding from_bits
from_bits-FitsIn half u h = ground arith
