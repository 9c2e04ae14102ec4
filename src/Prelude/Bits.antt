-- ===== src/Prelude/Bits.antt =====
-- The bit operators of C as arithmetic: one equation for the lowest bit, from the recursion on
-- binary digits that the native operations stand for, then masks and disjoint fields.
use Prim.Native.Nat.{
  ℕ, zero, suc, ◌+◌, ◌-◌, ◌*◌, ◌/◌, ◌%◌, ◌≤◌, ◌<◌, min, max, bit_and, bit_or, bit_xor, digits,
  bit_and-bitwise, bit_or-bitwise, bit_xor-bitwise, differ,
}
use mathlib.Core.Path.{◌≡◌, refl}
use native.Mathlib.Omega.{arith}

module _ (last : ℕ → ℕ) (bit : ℕ → ℕ → ℕ) where
  -- More rounds than the first number needs change nothing.
  digits_rounds : (n m a b : ℕ) → a ≤ n → a ≤ m → digits last bit n a b ≡ digits last bit m a b
  digits_rounds zero zero a b p q = refl
  digits_rounds zero (suc m) zero b p q = refl
  digits_rounds zero (suc m) (suc a) b p q = absurd (omega arith)
  digits_rounds (suc n) zero zero b p q = refl
  digits_rounds (suc n) zero (suc a) b p q = absurd (omega arith)
  digits_rounds (suc n) (suc m) zero b p q = refl
  digits_rounds (suc n) (suc m) (suc a) b p q =
      rw (digits_rounds n m (suc a / 2) (b / 2) (omega arith) (omega arith))

  digits_low :
      (a b : ℕ)
      → digits last bit (suc a) (suc a) b
        ≡ digits last bit (suc a / 2) (suc a / 2) (b / 2) * 2 + bit (suc a % 2) (b % 2)
  digits_low a b = rw (digits_rounds a (suc a / 2) (suc a / 2) (b / 2) (omega arith) (omega arith))

pub bit_and_low : (a b : ℕ) → bit_and a b ≡ bit_and (a / 2) (b / 2) * 2 + min (a % 2) (b % 2)
bit_and_low zero b = simp bit_and-bitwise (omega arith)
bit_and_low (suc a) b = simp bit_and-bitwise (digits_low (λ y. zero) min a b)

pub bit_or_low : (a b : ℕ) → bit_or a b ≡ bit_or (a / 2) (b / 2) * 2 + max (a % 2) (b % 2)
bit_or_low zero b = simp bit_or-bitwise (omega arith)
bit_or_low (suc a) b = simp bit_or-bitwise (digits_low (λ y. y) max a b)

pub bit_xor_low : (a b : ℕ) → bit_xor a b ≡ bit_xor (a / 2) (b / 2) * 2 + differ (a % 2) (b % 2)
bit_xor_low zero b = simp bit_xor-bitwise (omega arith)
bit_xor_low (suc a) b = simp bit_xor-bitwise (digits_low (λ y. y) differ a b)

-- The first number bounds the rounds, so `n` of them reach zero.
zero_rounds : (n a : ℕ) → a ≤ n → (bit_and a 0 ≡ 0) × (bit_or a 0 ≡ a)
zero_rounds n zero h = (refl, refl)
zero_rounds zero (suc a) h = absurd (omega arith)
zero_rounds (suc n) (suc a) h =
    let ih = zero_rounds n (suc a / 2) (omega arith) in
    (omega (arith, bit_and_low (suc a) 0, ih), omega (arith, bit_or_low (suc a) 0, ih))

pub bit_and-zero : (a : ℕ) → bit_and a 0 ≡ 0
bit_and-zero a = (zero_rounds a a (omega arith)).0

pub zero-bit_and : (b : ℕ) → bit_and 0 b ≡ 0
zero-bit_and b = simp bit_and-bitwise

pub bit_or-zero : (a : ℕ) → bit_or a 0 ≡ a
bit_or-zero a = (zero_rounds a a (omega arith)).1

differ_zero : (b : ℕ) → b < 2 → differ b 0 ≡ b
differ_zero zero h = refl
differ_zero (suc zero) h = refl
differ_zero (suc (suc b)) h = absurd (omega arith)

differ_one : (b : ℕ) → b < 2 → differ b 1 ≡ 1 - b
differ_one zero h = refl
differ_one (suc zero) h = refl
differ_one (suc (suc b)) h = absurd (omega arith)

xor_zero_rounds : (n a : ℕ) → a ≤ n → bit_xor a 0 ≡ a
xor_zero_rounds n zero h = refl
xor_zero_rounds zero (suc a) h = absurd (omega arith)
xor_zero_rounds (suc n) (suc a) h =
    let ih = xor_zero_rounds n (suc a / 2) (omega arith) in
    let low = differ_zero (suc a % 2) (omega arith) in omega (arith, bit_xor_low (suc a) 0, ih, low)

pub bit_xor-zero : (a : ℕ) → bit_xor a 0 ≡ a
bit_xor-zero a = xor_zero_rounds a a (omega arith)

-- The toggling of the lowest bit.
pub bit_xor-one : (a : ℕ) → bit_xor a 1 ≡ 2 * (a / 2) + (1 - a % 2)
bit_xor-one a =
    let low = differ_one (a % 2) (omega arith) in
    omega (arith, bit_xor_low a 1, bit_xor-zero (a / 2), low)

-- `k` ones, the `k` low bits of a number, and a number moved up by `k` bits, bit by bit.
abbrev ones : ℕ → ℕ
ones zero = 0
ones (suc k) = 2 * ones k + 1

abbrev low : ℕ → ℕ → ℕ
low zero a = 0
low (suc k) a = low k (a / 2) * 2 + a % 2

abbrev up : ℕ → ℕ → ℕ
up zero a = a
up (suc k) a = 2 * up k a

bit_and-ones : (k a : ℕ) → bit_and a (ones k) ≡ low k a
bit_and-ones zero a = bit_and-zero a
bit_and-ones (suc k) a = ground (arith, bit_and_low a (2 * ones k + 1), bit_and-ones k (a / 2))

abbrev down : ℕ → ℕ → ℕ
down zero a = a
down (suc k) a = down k (a / 2)

bit_and-up : (k a m : ℕ) → bit_and a (up k m) ≡ up k (bit_and (down k a) m)
bit_and-up zero a m = refl
bit_and-up (suc k) a m = ground (arith, bit_and_low a (2 * up k m), bit_and-up k (a / 2) m)

bit_or-up : (k q r : ℕ) → r < up k 1 → bit_or (up k q) r ≡ up k q + r
bit_or-up zero q r h = let e : r ≡ 0 = omega arith in rw e (omega (arith, bit_or-zero q))
bit_or-up (suc k) q r h = ground (arith, bit_or_low (2 * up k q) r, bit_or-up k q (r / 2))

-- A mask of a byte's ones is the remainder by 256.
pub bit_and_byte : (a : ℕ) → bit_and a 0xff ≡ a % 256
bit_and_byte a = omega (arith, bit_and-ones 8 a)

-- A mask of bits 8 to 11.
pub bit_and_0xf00 : (a : ℕ) → bit_and a 0xf00 ≡ a / 256 % 16 * 256
bit_and_0xf00 a = ground (arith, bit_and-up 8 a 15, bit_and-ones 4 (down 8 a))

-- The bytes of a word do not overlap: `|` adds them.
pub bit_or_bytes : (hi lo : ℕ) → lo < 256 → bit_or (hi * 256) lo ≡ hi * 256 + lo
bit_or_bytes hi lo h = ground (arith, bit_or-up 8 hi lo)

bit_or-up_low : (k r q : ℕ) → r < up k 1 → bit_or r (up k q) ≡ r + up k q
bit_or-up_low zero r q h = let e : r ≡ 0 = omega arith in rw e (simp bit_or-bitwise (omega arith))
bit_or-up_low (suc k) r q h = ground (arith, bit_or_low r (2 * up k q), bit_or-up_low k (r / 2) q)

-- A flag in bit 31, set in a number below it.
pub bit_or_flag : (a : ℕ) → a < 2147483648 → bit_or a 0x80000000 ≡ a + 2147483648
bit_or_flag a h = bit_or-up_low 31 a 1 h
