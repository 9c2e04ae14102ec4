-- ===== src/Components5.antt =====
-- apps/mini_components5: the loop of components5_main.c. The floating-point numbers, the operations on
-- them, the mathematical library and the fixed-point library are parameters: a library is the value of
-- each call.
pub mod Domains
pub mod Fixed
mod Tests
use railab_nuttx_code.Prelude.{ℕ, ℤ, Bool, List, [], ◌∷◌, ◌++◌, if◌then◌else◌}

-- The calls of the mathematical library, and the division and the product of two floats.
pub data FloatCall (F : Type 0) : Type 0 where
  sin : F → FloatCall F
  cos : F → FloatCall F
  powf : F → F → FloatCall F
  fabsf : F → FloatCall F
  sqrtf : F → FloatCall F
  expf : F → FloatCall F
  asinf : F → FloatCall F
  acosf : F → FloatCall F
  tanhf : F → FloatCall F
  logf : F → FloatCall F
  atan2f : F → F → FloatCall F
  sinf : F → FloatCall F
  cosf : F → FloatCall F
  mul : F → F → FloatCall F
  div : F → F → FloatCall F

-- The calls of fixedmath.h; a `b16_t` is an integer, in units of 2 ^ -16.
pub data FixedCall : Type 0 where
  b16sin : ℤ → FixedCall
  b16cos : ℤ → FixedCall
  b16atan2 : ℤ → ℤ → FixedCall
  b16sqr : ℤ → FixedCall
  b16mulb16 : ℤ → ℤ → FixedCall
  b16divb16 : ℤ → ℤ → FixedCall

pub data Call (F : Type 0) : Type 0 where
  float : FloatCall F → Call F
  fixed : FixedCall → Call F

-- The numbers; `tenths n` is the literal of n / 10, and `b16_tenths n` is ftob16 of it.
pub record Library : Type 1 where
  pub Float : Type 0
  pub tenths : ℕ → Float
  pub value : FloatCall Float → Float
  pub b16_tenths : ℕ → ℤ
  pub b16_value : FixedCall → ℤ

-- CONFIG_RAILAB_MINIMAL_COMPONENTS5_LIBC_FLOAT, LIBM, LIBC_LONGLONG, FIXEDMATH and FLOATMATH.
pub record Config : Type 0 where
  pub libc_float : Bool
  pub libm : Bool
  pub libc_longlong : Bool
  pub fixedmath : Bool
  pub floatmath : Bool

module _ (l : Library) where
  pub data Line : Type 0 where
    floats : l.Float → l.Float → l.Float → Line
    longs : ℕ → ℕ → Line

  -- A computation with the calls that it makes, in order.
  pub record Math (A : Type 0) : Type 0 where
    pub result : A
    pub calls : List (Call l.Float)

  infixl 5 ◌>>=◌
  abbrev pub ◌>>=◌ : {A B : Type 0} → Math A → (A → Math B) → Math B
  m >>= f = record { result = (f m.result).result; calls = m.calls ++ (f m.result).calls }

  abbrev pub call : FloatCall l.Float → Math l.Float
  call c = record { result = l.value c; calls = float c ∷ [] }

  abbrev pub call_b16 : FixedCall → Math ℤ
  call_b16 c = record { result = l.b16_value c; calls = fixed c ∷ [] }

  abbrev pub none : {A : Type 0} → A → Math A
  none a = record { result = a; calls = [] }

  -- `Do some math before print`: f1, f2 and f3 behind it.
  unfoldable pub libm_math : (f1 f2 f3 : l.Float) → Math (l.Float × l.Float × l.Float)
  libm_math f1 f2 f3 = do
    f1 ← call (sin f2)
    f2 ← call (cos f1)
    f3 ← call (powf f1 f2)
    f3 ← call (fabsf f3)
    f3 ← call (sqrtf f3)
    f1 ← call (expf f3)
    f2 ← call (asinf f3)
    f1 ← call (acosf f3)
    f1 ← call (tanhf f2)
    f2 ← call (logf f1)
    f3 ← call (atan2f f1 f2)
    none (f1, f2, f3)

  -- The part with CONFIG_RAILAB_MINIMAL_COMPONENTS5_FIXEDMATH: b1, b2 and b3 behind it.
  unfoldable pub fixed_math : (b1 b2 b3 : ℤ) → Math (ℤ × ℤ × ℤ)
  fixed_math b1 b2 b3 = do
    b3 ← call_b16 (b16sin b1)
    b2 ← call_b16 (b16cos b1)
    b1 ← call_b16 (b16atan2 b3 b2)
    b2 ← call_b16 (b16sqr b1)
    b3 ← call_b16 (b16mulb16 b1 b2)
    b1 ← call_b16 (b16divb16 b3 b2)
    none (b1, b2, b3)

  -- The part with CONFIG_RAILAB_MINIMAL_COMPONENTS5_FLOATMATH: fl1, fl2 and fl3 behind it.
  unfoldable pub float_math : (fl1 fl2 fl3 : l.Float) → Math (l.Float × l.Float × l.Float)
  float_math fl1 fl2 fl3 = do
    fl3 ← call (sinf fl1)
    fl2 ← call (cosf fl1)
    fl1 ← call (atan2f fl3 fl2)
    fl2 ← call (sqrtf fl1)
    fl3 ← call (mul fl1 fl2)
    fl1 ← call (div fl3 fl2)
    none (fl1, fl2, fl3)

  -- The lines of the parts that print, with the calls before them.
  unfoldable pub float_lines : Config → Math (List Line)
  unfolding libm_math
  float_lines c =
      let f1 = l.tenths 1 in
      let f2 = l.tenths 2 in
      let f3 = l.tenths 3 in
      if c.libc_float
      then (do
        (f1, f2, f3) ← if c.libm then libm_math f1 f2 f3 else none (f1, f2, f3)
        none (floats f1 f2 f3 ∷ []))
      else none []

  abbrev pub long_lines : Config → List Line
  long_lines c = if c.libc_longlong then longs 0xdeadbeefdead 0xbeafdeadbeef ∷ [] else []

  -- One round of the loop of `main`: the lines that it prints, with the calls that it makes.
  unfoldable pub main_round : Config → Math (List Line)
  unfolding float_lines fixed_math float_math
  main_round c = do
    lines ← float_lines c
    (b1, b2, b3) ←
        if c.fixedmath
        then fixed_math (l.b16_tenths 1) (l.b16_tenths 2) (l.b16_tenths 3)
        else none (l.b16_tenths 1, l.b16_tenths 2, l.b16_tenths 3)
    (fl1, fl2, fl3) ←
        if c.floatmath
        then float_math (l.tenths 1) (l.tenths 2) (l.tenths 3)
        else none (l.tenths 1, l.tenths 2, l.tenths 3)
    none (lines ++ long_lines c)
