-- ===== src/Components5/Tests.antt =====
-- The calls of components5_main.c over a library that is coarse, but does what is documented: every number
-- is a count of tenths, and a function that has values between 0 and 1 gives 5 tenths.
use railab_nuttx_code.Prelude.{
  refl, true, ℤ, ℕ, suc, ◌*◌, ◌/◌, pos, negsuc, pos_part, neg_part, ◌≤ℤ◌, ◌+◌, ◌<◌, All, arith,
}
use railab_nuttx_code.Components5.{
  FloatCall, fabsf, FixedCall, b16sin, b16cos, b16atan2, b16sqr, b16mulb16, b16divb16, Library,
  Config, main_round,
}
use railab_nuttx_code.Components5.Fixed.{IsShifted, IsFixed}
use railab_nuttx_code.Components5.Domains.{Order, IsMath, InDomain, main_round-InDomain}

abbrev coarse_value : FloatCall ℤ → ℤ
coarse_value (fabsf x) = x
coarse_value _ = pos 5

abbrev size : ℤ → ℕ
size (pos n) = n
size (negsuc n) = suc n

-- The fixed-point library takes the sine and the arc tangent to be their first argument.
abbrev coarse_b16 : FixedCall → ℤ
coarse_b16 (b16sin x) = x
coarse_b16 (b16cos x) = pos 65000
coarse_b16 (b16atan2 y x) = y
coarse_b16 (b16sqr x) = pos (size x * size x / 65536)
coarse_b16 (b16mulb16 x y) = pos (size x * size y / 65536)
coarse_b16 (b16divb16 x y) = pos (size x * 65536 / size y)

abbrev coarse : Library
coarse = record {
  Float = ℤ;
  tenths = λ n. pos n;
  value = coarse_value;
  b16_tenths = λ n. pos (n * 65536 / 10);
  b16_value = coarse_b16;
}

abbrev coarse_order : Order ℤ
coarse_order = record {
  lt = λ x y. pos_part x + neg_part y < pos_part y + neg_part x;
  le = λ x y. x ≤ℤ y;
  zero_f = pos 0;
  one_f = pos 10;
  minus_one_f = negsuc 9;
  lt_le = λ x y h. omega arith;
  le_trans = λ x y z h k. omega arith;
  minus_one_le = omega arith;
}

coarse-IsMath : IsMath coarse coarse_order
coarse-IsMath = record {
  one_tenth = omega arith;
  two_tenths = omega arith;
  sin_unit = λ x h. omega arith;
  cos_unit = λ x h. omega arith;
  powf_unit = λ x y h k. omega arith;
  fabsf_same = λ x h. refl;
  sqrtf_unit = λ x h. omega arith;
  sqrtf_pos = λ x h. omega arith;
  asinf_pos = λ x h. omega arith;
  tanhf_pos = λ x h. omega arith;
  sinf_unit = λ x h. omega arith;
  cosf_unit = λ x h. omega arith;
  atan2f_pos = λ y x h k. omega arith;
}

IsShifted-div : (p : ℕ) → IsShifted p (p / 65536)
IsShifted-div p = omega arith

coarse-IsFixed : IsFixed coarse
coarse-IsFixed = record {
  b16_tenth = (6553, refl, omega arith, omega arith);
  b16sin_near = λ n low high. (n, refl, omega arith, omega arith);
  b16cos_near = λ n low high. (65000, refl, omega arith, omega arith);
  b16atan2_near = λ y x low high some_x bound. (y, refl, omega arith, omega arith);
  b16sqr_shifted = λ n fit. (n * n / 65536, refl, IsShifted-div (n * n));
  b16mulb16_shifted = λ n m fit. (n * m / 65536, refl, IsShifted-div (n * m));
}

abbrev all_on : Config
all_on = record {
  libc_float = true;
  libm = true;
  libc_longlong = true;
  fixedmath = true;
  floatmath = true;
}

main_round-InDomain_example : All (InDomain coarse_order) (main_round coarse all_on).calls
main_round-InDomain_example =
    main_round-InDomain coarse coarse_order coarse-IsMath coarse-IsFixed all_on
