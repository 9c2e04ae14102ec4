-- ===== src/Modbus/Callbacks/Views.antt =====
-- The packed structures as arrays: 18 and 2 words of 16 bits, as the register map says.
use railab_nuttx_code.Prelude.{
  ℕ, ◌<◌, ◌^◌, ◌≡◌, List, [], ◌∷◌, ◌++◌, map, ℤ, u16_of_ℤ, u16_of_ℤ-lt, length, length-append,
  length-map, arith, All-append,
}
use railab_nuttx_code.Modbus.Wire.{AreWords}
use railab_nuttx_code.Modbus.State.{
  ModbusInput, ModbusState, IsShaped, IsValid, input_words, holding_words,
}

patterns-AreWords : (zs : List ℤ) → AreWords (map u16_of_ℤ zs)
patterns-AreWords [] = tt
patterns-AreWords (z ∷ zs) = (u16_of_ℤ-lt z, patterns-AreWords zs)

pub input_words-AreWords : (s : ModbusState) → IsValid s → AreWords (input_words s.input)
input_words-AreWords s v =
    let r = s.input in
    let all = patterns-AreWords in
    let P = λ (w : ℕ). w < 2 ^ 16 in
    (
      v.status,
      (
        v.cntr,
        All-append P (map u16_of_ℤ r.now) _ (all r.now) (
            All-append P (map u16_of_ℤ r.min) _ (all r.min)
              (All-append P (map u16_of_ℤ r.max) _ (all r.max) (all r.avg))),
      ),
    )

pub length-input_words : (r : ModbusInput) → IsShaped r → length (input_words r) ≡ 18
length-input_words r h = omega (
  arith,
  h.now,
  h.min,
  h.max,
  h.avg,
  length-append {0} (map u16_of_ℤ r.now)
      (map u16_of_ℤ r.min ++ (map u16_of_ℤ r.max ++ map u16_of_ℤ r.avg)),
  length-append {0} (map u16_of_ℤ r.min) (map u16_of_ℤ r.max ++ map u16_of_ℤ r.avg),
  length-append {0} (map u16_of_ℤ r.max) (map u16_of_ℤ r.avg),
  length-map u16_of_ℤ r.now,
  length-map u16_of_ℤ r.min,
  length-map u16_of_ℤ r.max,
  length-map u16_of_ℤ r.avg,
)

pub holding_words-AreWords : (s : ModbusState) → IsValid s → AreWords (holding_words s.holding)
holding_words-AreWords s v = (v.interval, (v.rst_stats, tt))
