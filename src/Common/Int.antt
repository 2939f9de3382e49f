-- ===== src/Common/Int.antt =====
-- Signed integers over the native numbers, and their two's complement patterns.
use Prim.Native.Nat.{ℕ, suc, ◌-◌, ◌%◌, ◌^◌, ◌<◌}
use mathlib.Core.Path.{◌≡◌}
use native.Mathlib.Omega.{arith}
use relational_db_engine.Common.{ltb, if◌then◌else◌}

-- `negsuc n` is -(n + 1).
pub data ℤ : Type 0 where
  pos : ℕ → ℤ
  negsuc : ℕ → ℤ

-- The conversion to an unsigned type of w bits.
abbrev pub to_unsigned : ℕ → ℤ → ℕ
to_unsigned w (pos n) = n % 2 ^ w
to_unsigned w (negsuc n) = 2 ^ w - 1 - n % 2 ^ w

-- The conversion of a pattern of w + 1 bits to the signed type of that width.
abbrev pub to_signed : ℕ → ℕ → ℤ
to_signed w x = if ltb x (2 ^ w) then pos x else negsuc (2 ^ suc w - 1 - x)

-- The values of the signed type of w + 1 bits.
abbrev pub IsInt : ℕ → ℤ → Type 0
IsInt w (pos n) = n < 2 ^ w
IsInt w (negsuc n) = n < 2 ^ w

pub to_signed-to_unsigned8 : (z : ℤ) → IsInt 7 z → to_signed 7 (to_unsigned 8 z) ≡ z
to_signed-to_unsigned8 z h = ground arith

pub to_signed-to_unsigned32 : (z : ℤ) → IsInt 31 z → to_signed 31 (to_unsigned 32 z) ≡ z
to_signed-to_unsigned32 z h = ground arith

pub to_signed-to_unsigned64 : (z : ℤ) → IsInt 63 z → to_signed 63 (to_unsigned 64 z) ≡ z
to_signed-to_unsigned64 z h = ground arith
