-- ===== src/Prelude/Word.antt =====
-- Fixed-width integers: an unsigned word is a number below its power of two, a signed one an
-- integer in its range; the conversions of C between them.
use Prim.Native.Nat.{ℕ, ◌-◌, ◌*◌, ◌/◌, ◌%◌, ◌^◌, ◌<◌}
use mathlib.Core.Path.{◌≡◌}
use native.Mathlib.Omega.{arith}
use railab_nuttx_code.Prelude.Tests.{ltb, if◌then◌else◌}
use railab_nuttx_code.Prelude.Int.{ℤ, pos, negsuc, ◌≤ℤ◌}

abbrev pub u8 : ℕ → ℕ
u8 n = n % 2 ^ 8

abbrev pub u16 : ℕ → ℕ
u16 n = n % 2 ^ 16

abbrev pub u32 : ℕ → ℕ
u32 n = n % 2 ^ 32

abbrev pub u64 : ℕ → ℕ
u64 n = n % 2 ^ 64

infixl 75 ◌<<<◌ ◌>>>◌
abbrev pub ◌<<<◌ : ℕ → ℕ → ℕ
x <<< k = x * 2 ^ k

abbrev pub ◌>>>◌ : ℕ → ℕ → ℕ
x >>> k = x / 2 ^ k

-- The bit pattern of a signed value, read as `uint16_t`.
abbrev pub u16_of_ℤ : ℤ → ℕ
u16_of_ℤ (pos n) = n % 2 ^ 16
u16_of_ℤ (negsuc n) = 2 ^ 16 - 1 - n % 2 ^ 16

-- The `int16_t` of a bit pattern.
abbrev pub int16_of_u16 : ℕ → ℤ
int16_of_u16 w = if ltb w (2 ^ 15) then pos w else negsuc (2 ^ 16 - 1 - w)

-- `(int16_t)z`, which keeps the low 16 bits.
unfoldable pub int16 : ℤ → ℤ
int16 z = int16_of_u16 (u16_of_ℤ z)

abbrev pub int16_max : ℤ
int16_max = pos 32767

abbrev pub int16_min : ℤ
int16_min = negsuc 32767

abbrev pub int32_max : ℤ
int32_max = pos 2147483647

abbrev pub int32_min : ℤ
int32_min = negsuc 2147483647

abbrev pub IsInt16 : ℤ → Type 0
IsInt16 z = (int16_min ≤ℤ z) × (z ≤ℤ int16_max)

pub int16_eq_self : (z : ℤ) → IsInt16 z → int16 z ≡ z
unfolding int16
int16_eq_self (pos n) h = ground arith
int16_eq_self (negsuc n) h = ground arith

pub int16-IsInt16 : (z : ℤ) → IsInt16 (int16 z)
unfolding int16
int16-IsInt16 (pos n) = ground arith
int16-IsInt16 (negsuc n) = ground arith

-- A register holds the bit pattern of its value: reading it back as signed gives the value.
pub int16_of_u16-u16_of_ℤ : (z : ℤ) → IsInt16 z → int16_of_u16 (u16_of_ℤ z) ≡ z
int16_of_u16-u16_of_ℤ (pos n) h = ground arith
int16_of_u16-u16_of_ℤ (negsuc n) h = ground arith

pub u16_of_ℤ-lt : (z : ℤ) → u16_of_ℤ z < 2 ^ 16
u16_of_ℤ-lt (pos n) = omega arith
u16_of_ℤ-lt (negsuc n) = omega arith
