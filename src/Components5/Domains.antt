-- ===== src/Components5/Domains.antt =====
-- Which arguments the calls of components5_main.c are given, and what its mathematical library documents.
use railab_nuttx_code.Prelude.{
  ◌≡◌, ◌⊎◌, inl, inr, sym, ℤ, Bool, true, false, if◌then◌else◌, Bool-cases, [], All, All-append,
}
use mathlib.Core.Path.{subst}
use railab_nuttx_code.Components5.{
  FloatCall, Call, float, fixed, sin, cos, powf, fabsf, sqrtf, asinf, acosf, tanhf, logf, atan2f,
  sinf, cosf, div, Library, Config, libm_math, float_math, fixed_math, float_lines, none,
  main_round,
}
use railab_nuttx_code.Components5.Fixed.{FixedInDomain, IsFixed, fixed_calls-InDomain}

-- The order of the numbers, with 0, 1 and -1.
pub record Order (F : Type 0) : Type 1 where
  pub lt : F → F → Type 0
  pub le : F → F → Type 0
  pub zero_f : F
  pub one_f : F
  pub minus_one_f : F
  pub lt_le : (x y : F) → lt x y → le x y
  pub le_trans : (x y z : F) → le x y → le y z → le x z
  pub minus_one_le : le minus_one_f zero_f

module _ {F : Type 0} (o : Order F) where
  -- Between 0, which is left out, and 1.
  abbrev pub InUnit : F → Type 0
  InUnit x = o.lt o.zero_f x × o.le x o.one_f

  -- The arguments for which a call has a value.
  abbrev pub FloatInDomain : FloatCall F → Type 0
  FloatInDomain (powf x y) = o.lt o.zero_f x
  FloatInDomain (sqrtf x) = o.le o.zero_f x
  FloatInDomain (asinf x) = o.le o.minus_one_f x × o.le x o.one_f
  FloatInDomain (acosf x) = o.le o.minus_one_f x × o.le x o.one_f
  FloatInDomain (logf x) = o.lt o.zero_f x
  FloatInDomain (div x y) = o.lt o.zero_f y ⊎ o.lt y o.zero_f
  FloatInDomain c = Unit

  abbrev pub InDomain : Call F → Type 0
  InDomain (float c) = FloatInDomain c
  InDomain (fixed c) = FixedInDomain c

  unit-InDomain : (x : F) → InUnit x → o.le o.minus_one_f x × o.le x o.one_f
  unit-InDomain x h =
      (o.le_trans o.minus_one_f o.zero_f x o.minus_one_le (o.lt_le o.zero_f x h.0), h.1)

-- What the library documents, for arguments between 0 and 1.
pub record IsMath (l : Library) (o : Order l.Float) : Type 0 where
  pub one_tenth : InUnit o (l.tenths 1)
  pub two_tenths : InUnit o (l.tenths 2)
  pub sin_unit : (x : l.Float) → InUnit o x → InUnit o (l.value (sin x))
  pub cos_unit : (x : l.Float) → InUnit o x → InUnit o (l.value (cos x))
  pub powf_unit : (x y : l.Float) → InUnit o x → InUnit o y → InUnit o (l.value (powf x y))
  pub fabsf_same : (x : l.Float) → InUnit o x → l.value (fabsf x) ≡ x
  pub sqrtf_unit : (x : l.Float) → InUnit o x → InUnit o (l.value (sqrtf x))
  pub sqrtf_pos : (x : l.Float) → o.lt o.zero_f x → o.lt o.zero_f (l.value (sqrtf x))
  pub asinf_pos : (x : l.Float) → InUnit o x → o.lt o.zero_f (l.value (asinf x))
  pub tanhf_pos : (x : l.Float) → o.lt o.zero_f x → o.lt o.zero_f (l.value (tanhf x))
  pub sinf_unit : (x : l.Float) → InUnit o x → InUnit o (l.value (sinf x))
  pub cosf_unit : (x : l.Float) → InUnit o x → InUnit o (l.value (cosf x))
  pub atan2f_pos : (y x : l.Float) → InUnit o y → InUnit o x → o.lt o.zero_f (l.value (atan2f y x))

module _ (l : Library) (o : Order l.Float) (k : IsMath l o) (kf : IsFixed l) where
  libm_math-InDomain :
      (f1 f2 f3 : l.Float) → InUnit o f2 → All (InDomain o) (libm_math l f1 f2 f3).calls
  unfolding libm_math
  libm_math-InDomain f1 f2 f3 h2 =
      let h1 = k.sin_unit f2 h2 in
      let c2 = k.cos_unit (l.value (sin f2)) h1 in
      let p = k.powf_unit (l.value (sin f2)) (l.value (cos (l.value (sin f2)))) h1 c2 in
      let a = subst (InUnit o) (sym (k.fabsf_same _ p)) p in
      let r = k.sqrtf_unit _ a in
      let t = k.tanhf_pos _ (k.asinf_pos _ r) in
      let d = unit-InDomain o _ r in
      (tt, (tt, (h1.0, (tt, (o.lt_le o.zero_f _ a.0, (tt, (d, (d, (tt, (t, (tt, tt)))))))))))

  float_math-InDomain :
      (fl1 fl2 fl3 : l.Float) → InUnit o fl1 → All (InDomain o) (float_math l fl1 fl2 fl3).calls
  unfolding float_math
  float_math-InDomain fl1 fl2 fl3 h =
      let angle = k.atan2f_pos _ _ (k.sinf_unit fl1 h) (k.cosf_unit fl1 h) in
      (tt, (tt, (tt, (o.lt_le o.zero_f _ angle, (tt, (inl (k.sqrtf_pos _ angle), tt))))))

  fixed_math-InDomain : (b2 b3 : ℤ) → All (InDomain o) (fixed_math l (l.b16_tenths 1) b2 b3).calls
  unfolding fixed_math
  fixed_math-InDomain b2 b3 =
      let (square, product, quotient) = fixed_calls-InDomain l kf in
      (tt, (tt, (tt, (square, (product, (quotient, tt))))))

  fixed_part-InDomain :
      (on : Bool)
      → All
          (InDomain o)
          (if on
            then fixed_math l (l.b16_tenths 1) (l.b16_tenths 2) (l.b16_tenths 3)
            else none l (l.b16_tenths 1, l.b16_tenths 2, l.b16_tenths 3)).calls
  fixed_part-InDomain true = fixed_math-InDomain (l.b16_tenths 2) (l.b16_tenths 3)
  fixed_part-InDomain false = tt

  float_part-InDomain :
      (on : Bool)
      → All
          (InDomain o)
          (if on
            then float_math l (l.tenths 1) (l.tenths 2) (l.tenths 3)
            else none l (l.tenths 1, l.tenths 2, l.tenths 3)).calls
  float_part-InDomain true = float_math-InDomain (l.tenths 1) (l.tenths 2) (l.tenths 3) k.one_tenth
  float_part-InDomain false = tt

  float_lines-InDomain : (c : Config) → All (InDomain o) (float_lines l c).calls
  unfolding float_lines
  float_lines-InDomain c = elim (Bool-cases c.libc_float) [
    | inl prints ↦ elim (Bool-cases c.libm) [
      | inl math ↦
          rw (prints, math)
            (All-append (InDomain o) (libm_math l (l.tenths 1) (l.tenths 2) (l.tenths 3)).calls []
              (libm_math-InDomain (l.tenths 1) (l.tenths 2) (l.tenths 3) k.two_tenths) tt)
      | inr plain ↦ rw (prints, plain) tt
    ]
    | inr silent ↦ rw silent tt
  ]

  -- Over a mathematical library and a fixed-point library that do what is documented, and whatever the
  -- build configures: in every round of `main` no call leaves the domain of its function (no root of a
  -- negative number, no arc sine or arc cosine outside -1 to 1, no logarithm or power of 0 or less), no
  -- division is by zero, and no fixed-point product or quotient leaves 32 bits.
  pub main_round-InDomain : (c : Config) → All (InDomain o) (main_round l c).calls
  unfolding main_round
  main_round-InDomain c =
      All-append (InDomain o) (float_lines l c).calls _ (float_lines-InDomain c) (
        All-append (InDomain o) _ _ (fixed_part-InDomain c.fixedmath)
          (All-append (InDomain o) _ [] (float_part-InDomain c.floatmath) tt))
