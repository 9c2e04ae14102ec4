-- ===== src/Modbus/Adc/Average.antt =====
-- The exponential moving average with alpha 1/4, in integers.
use railab_nuttx_code.Prelude.{
  ℕ, zero, suc, ◌+◌, ◌-◌, ◌*◌, ◌/◌, ◌≤◌, ◌<◌, ◌≡◌, refl, ◌⊎◌, inl, inr, ℤ, pos, negsuc, pos_part,
  neg_part, ◌+ℤ◌, ◌-ℤ◌, ◌≤ℤ◌, shr_ℤ, int16_eq_self, int16-IsInt16, IsInt16, +ℤ_parts, -ℤ_parts,
  eq_of_parts, ≤ℤ_total, arith, dec_lt, ltb, if◌then◌else◌,
}
use railab_nuttx_code.Modbus.Adc.{ema, min_ℤ, max_ℤ}

-- The exact value, before it is stored.
abbrev mean : (now avg : ℤ) → ℤ
mean now avg = avg +ℤ shr_ℤ (now -ℤ avg) 2

one_sign : (z : ℤ) → (pos_part z ≡ 0) ⊎ (neg_part z ≡ 0)
one_sign (pos n) = inr refl
one_sign (negsuc n) = inl refl

-- A quarter, rounded down.
shr_2_parts :
    (z : ℤ)
    → (pos_part z ≤ pos_part (shr_ℤ z 2) * 4 + 3)
      × (pos_part (shr_ℤ z 2) * 4 ≤ pos_part z)
      × (neg_part z ≤ neg_part (shr_ℤ z 2) * 4)
      × (neg_part (shr_ℤ z 2) * 4 ≤ neg_part z + 3)
      × ((pos_part z ≡ 0) ⊎ (neg_part (shr_ℤ z 2) ≡ 0))
shr_2_parts (pos n) = (omega arith, omega arith, omega arith, omega arith, inr refl)
shr_2_parts (negsuc n) = (omega arith, omega arith, omega arith, omega arith, inl refl)

-- From below, the average moves up by a quarter of the gap `d`.
mean-up :
    (now avg : ℤ) (d : ℕ)
    → pos_part now + neg_part avg ≡ pos_part avg + neg_part now + d
    → pos_part (mean now avg) + neg_part avg ≡ pos_part avg + neg_part (mean now avg) + d / 4
mean-up now avg d e =
    let gap = now -ℤ avg in
    omega (arith, +ℤ_parts avg (shr_ℤ gap 2), -ℤ_parts now avg, shr_2_parts gap, one_sign gap)

-- From above the quarter is rounded away from the average.
mean-down :
    (now avg : ℤ) (d : ℕ)
    → pos_part avg + neg_part now ≡ pos_part now + neg_part avg + d
    → pos_part avg + neg_part (mean now avg) ≡ pos_part (mean now avg) + neg_part avg + (d + 3) / 4
mean-down now avg d e =
    let gap = now -ℤ avg in
    omega (arith, +ℤ_parts avg (shr_ℤ gap 2), -ℤ_parts now avg, shr_2_parts gap, one_sign gap)

-- `a` is `b` plus `d`.
abbrev pub Above : ℤ → ℤ → ℕ → Type 0
Above a b d = pos_part a + neg_part b ≡ pos_part b + neg_part a + d

module _ (now avg : ℤ) (n16 : IsInt16 now) (a16 : IsInt16 avg) where
  ema-eq-mean : ema now avg ≡ mean now avg
  unfolding ema
  ema-eq-mean = int16_eq_self (mean now avg) (fits (≤ℤ_total now avg))
    where
      fits : (now ≤ℤ avg) ⊎ (avg ≤ℤ now) → IsInt16 (mean now avg)
      fits (inl h) =
          let d = pos_part avg + neg_part now - (pos_part now + neg_part avg) in
          omega (arith, mean-down now avg d (omega arith))
      fits (inr h) =
          let d = pos_part now + neg_part avg - (pos_part avg + neg_part now) in
          omega (arith, mean-up now avg d (omega arith))

  ema-up :
      (d : ℕ)
      → Above now avg d
      → Above (ema now avg) avg (d / 4) × Above now (ema now avg) (d - d / 4)
  ema-up d e = rw ema-eq-mean (omega (arith, mean-up now avg d e))

  ema-down :
      (d : ℕ)
      → Above avg now d
      → Above avg (ema now avg) ((d + 3) / 4) × Above (ema now avg) now (d - (d + 3) / 4)
  ema-down d e = rw ema-eq-mean (omega (arith, mean-down now avg d e))

  ema-IsInt16 : IsInt16 (ema now avg)
  unfolding ema
  ema-IsInt16 = int16-IsInt16 (mean now avg)

  -- The average moves towards the new sample and not past it: it ends between the two, both
  -- included, and no 16-bit overflow occurs, since it is the exact integer average.
  pub ema_between :
      (min_ℤ now avg ≤ℤ ema now avg)
      × (ema now avg ≤ℤ max_ℤ now avg)
      × (ema now avg ≡ avg +ℤ shr_ℤ (now -ℤ avg) 2)
  ema_between = elim (≤ℤ_total now avg) [
    | inl h ↦
        let d = pos_part avg + neg_part now - (pos_part now + neg_part avg) in
        let k = ema-down d (omega arith) in (ground arith, ground arith, ema-eq-mean)
    | inr h ↦
        let d = pos_part now + neg_part avg - (pos_part avg + neg_part now) in
        let k = ema-up d (omega arith) in (ground arith, ground arith, ema-eq-mean)
  ]

-- The average after `n` more samples of the same value.
abbrev pub ema_rounds : ℕ → ℤ → ℤ → ℤ
ema_rounds zero v avg = avg
ema_rounds (suc n) v avg = ema_rounds n v (ema v avg)

-- An average that is 1 to 3 mV below a constant input stays there.
ema_stalls :
    (v avg : ℤ) (d : ℕ)
    → IsInt16 v
    → IsInt16 avg
    → Above v avg d
    → d < 4
    → (n : ℕ) → ema_rounds n v avg ≡ avg
ema_stalls v avg d v16 a16 e h zero = refl
ema_stalls v avg d v16 a16 e h (suc n) =
    let same : ema v avg ≡ avg = eq_of_parts _ _ (omega (arith, ema-up v avg v16 a16 d e)) in
    rw same (ema_stalls v avg d v16 a16 e h n)

-- With a constant input above it, the average comes up to exactly 3 mV below the input.
ema_settles_up :
    (n : ℕ) (v avg : ℤ) (d : ℕ)
    → IsInt16 v
    → IsInt16 avg
    → Above v avg d
    → 3 ≤ d
    → d ≤ n
    → Above v (ema_rounds n v avg) 3
ema_settles_up zero v avg d v16 a16 e far h = absurd (omega arith)
ema_settles_up (suc n) v avg d v16 a16 e far h = elim (dec_lt d 4) [
  | yes near ↦ rw (ema_stalls v avg d v16 a16 e near (suc n)) (omega arith)
  | no above ↦
      ema_settles_up n v (ema v avg) (d - d / 4) v16 (ema-IsInt16 v avg v16 a16)
        (ema-up v avg v16 a16 d e).1 (omega arith) (omega arith)
]

-- With a constant input below it, the average comes down to exactly the input.
ema_settles_down :
    (n : ℕ) (v avg : ℤ) (d : ℕ)
    → IsInt16 v
    → IsInt16 avg
    → Above avg v d
    → d ≤ n
    → ema_rounds n v avg ≡ v
ema_settles_down zero v avg d v16 a16 e h = eq_of_parts avg v (omega arith)
ema_settles_down (suc n) v avg d v16 a16 e h =
    ema_settles_down n v (ema v avg) (d - (d + 3) / 4) v16 (ema-IsInt16 v avg v16 a16)
      (ema-down v avg v16 a16 d e).1 (omega arith)

-- How far below a constant input the average stays for good that starts `d` below it or `d` above.
abbrev pub shortfall : {Below Beyond : Type 0} → ℕ → Below ⊎ Beyond → ℕ
shortfall d (inl below) = if ltb d 3 then d else 3
shortfall d (inr beyond) = 0

-- With a constant input, the average comes to rest after as many samples as it was millivolts away:
-- exactly at the input if it started above it, and exactly 3 mV short of it if it started at least
-- 3 mV below it; from less than that below it does not move at all.
pub ema_settles :
    (n : ℕ) (v avg : ℤ) (d : ℕ)
    → IsInt16 v
    → IsInt16 avg
    → (gap : Above v avg d ⊎ Above avg v d) → d ≤ n
    → Above v (ema_rounds n v avg) (shortfall d gap)
ema_settles n v avg d v16 a16 (inl below) h = elim (dec_lt d 3) [
  | yes near ↦ rw (ema_stalls v avg d v16 a16 below (omega arith) n) (ground arith)
  | no far ↦ let up = ema_settles_up n v avg d v16 a16 below (omega arith) h in ground arith
]
ema_settles n v avg d v16 a16 (inr above) h =
    rw (ema_settles_down n v avg d v16 a16 above h) (omega arith)
