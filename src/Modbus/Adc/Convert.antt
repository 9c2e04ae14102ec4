-- ===== src/Modbus/Adc/Convert.antt =====
-- ADC_RAW_TO_MILIVOLT of modbusslave_main.c: raw ADC counts to millivolts, in `int` arithmetic.
use railab_nuttx_code.Prelude.{
  ℕ, suc, sub_ℕ, ◌+◌, ◌*◌, ◌/◌, ◌≤◌, ◌<◌, ◌≡◌, ◌⊎◌, inl, inr, pos_part, neg_part, ◌&&◌, ℤ, pos,
  negsuc, ◌*ℤ◌, ◌≤ℤ◌, leb_ℤ, quot_ℤ, int32_max, int32_min, int16, int16_eq_self, Outcome, done,
  fault, if◌then◌else◌, arith,
}

abbrev pub adc_raw_max : ℕ
adc_raw_max = 4095

abbrev pub adc_ref_milivolt : ℤ
adc_ref_milivolt = pos 3300

-- `am_data` is an `int32_t`; a product that does not fit `int` is undefined.
unfoldable pub raw_to_milivolt : ℤ → Outcome ℤ
raw_to_milivolt raw =
    let scaled = raw *ℤ adc_ref_milivolt in
    if leb_ℤ int32_min scaled && leb_ℤ scaled int32_max
    then done (quot_ℤ scaled adc_raw_max)
    else fault

-- The counts whose product with the reference voltage fits `int`.
abbrev pub Fits : ℤ → Type 0
Fits raw = (negsuc 650751 ≤ℤ raw) × (raw ≤ℤ pos 650752)

-- The millivolts of a count, as an integer quotient.
abbrev pub milivolt : ℤ → ℤ
milivolt (pos n) = pos (n * 3300 / 4095)
milivolt (negsuc n) = quot_ℤ (negsuc (n * 3300 + 3299)) 4095

pub raw_to_milivolt_lem : (raw : ℤ) → Fits raw → raw_to_milivolt raw ≡ done (milivolt raw)
unfolding raw_to_milivolt ◌*ℤ◌
raw_to_milivolt_lem (pos n) h = ground arith
raw_to_milivolt_lem (negsuc n) h = ground arith

raw_to_milivolt_fault : (raw : ℤ) → ¬ Fits raw → raw_to_milivolt raw ≡ fault
unfolding raw_to_milivolt ◌*ℤ◌
raw_to_milivolt_fault (pos n) h = ground arith
raw_to_milivolt_fault (negsuc n) h = ground arith

-- `a` divided by 4095, with the remainder dropped, is `q`.
abbrev pub IsQuotient : (a q : ℕ) → Type 0
IsQuotient a q = (q * 4095 ≤ a) × (a < (q + 1) * 4095)

-- `mv` is the voltage of the count, a multiple of 3300 / 4095 mV, without the fraction of a millivolt,
-- towards zero on either side.
abbrev pub IsVoltage : (raw mv : ℤ) → Type 0
IsVoltage raw mv =
    IsQuotient (pos_part raw * 3300) (pos_part mv) × IsQuotient (neg_part raw * 3300) (neg_part mv)

negated_parts : (q : ℕ) → (pos_part (sub_ℕ 0 q) ≡ 0) × (neg_part (sub_ℕ 0 q) ≡ q)
negated_parts q = ground arith

milivolt-IsVoltage : (raw : ℤ) → IsVoltage raw (milivolt raw)
milivolt-IsVoltage (pos n) = omega arith
milivolt-IsVoltage (negsuc n) =
    let (no_pos, neg) = negated_parts (suc (n * 3300 + 3299) / 4095) in
    rw (no_pos, neg) (omega arith)

Fits-cases : (raw : ℤ) → Fits raw ⊎ (¬ Fits raw)
Fits-cases (pos n) = omega arith
Fits-cases (negsuc n) = omega arith

-- For every raw count, the conversion either gives the voltage of the count without the fraction of a
-- millivolt, towards zero on either side, and this exactly for the counts from -650752 to 650752, or it
-- is undefined, and this exactly for the others, whose product with 3300 does not fit `int`.
pub convert_complete :
    (raw : ℤ)
    → ((mv : ℤ) × (raw_to_milivolt raw ≡ done mv) × Fits raw × IsVoltage raw mv)
      ⊎ ((raw_to_milivolt raw ≡ fault) × (¬ Fits raw))
convert_complete raw = elim (Fits-cases raw) [
  | inl h ↦ inl (milivolt raw, raw_to_milivolt_lem raw h, h, milivolt-IsVoltage raw)
  | inr h ↦ inr (raw_to_milivolt_fault raw h, h)
]

-- A 12-bit count comes out between 0 and 3300 mV and fits `int16_t`, and a larger count does not
-- come out lower; the count 0 gives 0 mV and the count 4095 gives 3300 mV.
convert_12_bits :
    (m n : ℕ)
    → m ≤ n
    → n ≤ 4095
    → (a b : ℕ) × (raw_to_milivolt (pos m) ≡ done (pos a))
      × (raw_to_milivolt (pos n) ≡ done (pos b))
      × (a ≤ b)
      × (b ≤ 3300)
      × (int16 (pos b) ≡ pos b)
      × (raw_to_milivolt (pos 0) ≡ done (pos 0))
      × (raw_to_milivolt (pos 4095) ≡ done (pos 3300))
convert_12_bits m n le max = (
  m * 3300 / 4095,
  n * 3300 / 4095,
  raw_to_milivolt_lem (pos m) (omega arith),
  raw_to_milivolt_lem (pos n) (omega arith),
  omega arith,
  omega arith,
  int16_eq_self _ (omega arith),
  raw_to_milivolt_lem (pos 0) (omega arith),
  raw_to_milivolt_lem (pos 4095) (omega arith),
)
