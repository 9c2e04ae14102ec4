-- ===== src/Components5/Fixed.antt =====
-- The fixed-point calls of components5_main.c: what fixedmath.h documents, and that they stay inside 32
-- bits with no division by zero.
use railab_nuttx_code.Prelude.{ℕ, ◌+◌, ◌*◌, ◌^◌, ◌≤◌, ◌<◌, ◌≡◌, ℤ, pos, pos_part, neg_part, arith}
use native.Mathlib.Nat.{mul-le-mul, mul-le-mul_right}
use railab_nuttx_code.Components5.{
  FixedCall, b16sin, b16cos, b16atan2, b16sqr, b16mulb16, b16divb16, Library,
}

abbrev pub abs : ℤ → ℕ
abs z = pos_part z + neg_part z

-- The arguments for which a result exists and is a `b16_t`.
abbrev pub FixedInDomain : FixedCall → Type 0
FixedInDomain (b16sqr x) = abs x * abs x < 2 ^ 47
FixedInDomain (b16mulb16 x y) = abs x * abs y < 2 ^ 47
FixedInDomain (b16divb16 x y) = (0 < abs y) × (abs x * 2 ^ 16 < abs y * 2 ^ 31)
FixedInDomain c = Unit

-- `r` is `p` / 2 ^ 16 up to one unit of the last place.
abbrev pub IsShifted : (p r : ℕ) → Type 0
IsShifted p r = (p ≤ (r + 1) * 65536) × (r * 65536 ≤ p + 65536)

-- What the library documents, for angles between 1 / 16 and 1, and with room for an error of the
-- approximation.
pub record IsFixed (l : Library) : Type 0 where
  pub b16_tenth : (n : ℕ) × (l.b16_tenths 1 ≡ pos n) × (6553 ≤ n) × (n ≤ 6554)
  pub b16sin_near :
      (n : ℕ)
      → 4096 ≤ n
      → n ≤ 65536
      → (m : ℕ) × (l.b16_value (b16sin (pos n)) ≡ pos m) × (n ≤ 2 * m) × (m ≤ 131072)
  pub b16cos_near :
      (n : ℕ)
      → 4096 ≤ n
      → n ≤ 65536
      → (m : ℕ) × (l.b16_value (b16cos (pos n)) ≡ pos m) × (0 < m) × (m ≤ 131072)
  pub b16atan2_near :
      (y x : ℕ)
      → 1024 ≤ y
      → y ≤ 131072
      → 0 < x
      → x ≤ 131072
      → (m : ℕ) × (l.b16_value (b16atan2 (pos y) (pos x)) ≡ pos m) × (y ≤ 8 * m) × (m ≤ 131072)
  pub b16sqr_shifted :
      (n : ℕ)
      → n * n < 2 ^ 47
      → (r : ℕ) × (l.b16_value (b16sqr (pos n)) ≡ pos r) × IsShifted (n * n) r
  pub b16mulb16_shifted :
      (n m : ℕ)
      → n * m < 2 ^ 47
      → (r : ℕ) × (l.b16_value (b16mulb16 (pos n) (pos m)) ≡ pos r) × IsShifted (n * m) r

-- The square of an angle, its product with the angle, and the quotient of the two.
square_fits : (n : ℕ) → n ≤ 131072 → n * n < 2 ^ 47
square_fits n high = omega (arith, mul-le-mul high high)

square_bounds : (n r : ℕ) → 409 ≤ n → n ≤ 131072 → IsShifted (n * n) r → (0 < r) × (r ≤ 262145)
square_bounds n r low high h = omega (arith, mul-le-mul low low, mul-le-mul high high, h)

product_fits : (n r : ℕ) → n ≤ 131072 → r ≤ 262145 → n * r < 2 ^ 47
product_fits n r high bound = omega (arith, mul-le-mul_right r high)

quotient_fits : (n r q : ℕ) → n ≤ 131072 → 0 < r → IsShifted (n * r) q → q * 2 ^ 16 < r * 2 ^ 31
quotient_fits n r q high low h = omega (arith, mul-le-mul_right r high, h)

module _ (l : Library) (k : IsFixed l) where
  -- The three calls on an angle that the arc tangent gives.
  abbrev pub AngleInDomain : ℤ → Type 0
  AngleInDomain b1 =
      let b2 = l.b16_value (b16sqr b1) in
      let b3 = l.b16_value (b16mulb16 b1 b2) in
      FixedInDomain (b16sqr b1) × FixedInDomain (b16mulb16 b1 b2) × FixedInDomain (b16divb16 b3 b2)

  angle-InDomain : (n : ℕ) → 409 ≤ n → n ≤ 131072 → AngleInDomain (pos n)
  angle-InDomain n low high =
      let sq = square_fits n high in
      let (r, e, h) = k.b16sqr_shifted n sq in
      let (some_r, bound) = square_bounds n r low high h in
      let pr = product_fits n r high bound in
      let (q, e', h') = k.b16mulb16_shifted n r pr in
      let quo = quotient_fits n r q high some_r h' in rw (e, e') (omega arith)

  pub fixed_calls-InDomain : AngleInDomain (
      l.b16_value
        (b16atan2 (l.b16_value (b16sin (l.b16_tenths 1))) (l.b16_value (b16cos (l.b16_tenths 1)))))
  fixed_calls-InDomain =
      let (n, e, low, high) = k.b16_tenth in
      let (s, es, s_low, s_high) = k.b16sin_near n (omega arith) (omega arith) in
      let (c, ec, c_low, c_high) = k.b16cos_near n (omega arith) (omega arith) in
      let (a, ea, a_low, a_high) = k.b16atan2_near s c (omega arith) s_high c_low c_high in
      rw (e, es, ec, ea) (angle-InDomain a (omega arith) a_high)
