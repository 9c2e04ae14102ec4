-- ===== src/Modbus/Threads/Since.antt =====
-- How the device in the middle of a critical section stands to the device before it.
use railab_nuttx_code.Prelude.{
  >>=-done, >>=-assoc, >>=-ext, ℕ, zero, suc, ◌+◌, ◌≡◌, ◌∙◌, true, false, List, ℤ, pos, done, ◌>>=◌,
  arith,
}
use railab_nuttx_code.Modbus.State.{ModbusInput, ModbusState, adc_samples, locked, unlocked}
use railab_nuttx_code.Modbus.Adc.{serve_reset, store_sample, store_from, adc_round}
use railab_nuttx_code.Modbus.Threads.{AdcPc, opening, starting, waiting, serving, storing}
use railab_nuttx_code.Modbus.Threads.Invariant.{adc_in}

-- The loop over the channels, one round longer.
pub store_from-suc :
    (sample : List ℤ) (n i : ℕ) (r : ModbusInput)
    → store_from sample (suc n) i r ≡ (store_from sample n i r >>= store_sample sample (i + n))
unfolding store_from
store_from-suc sample zero i r =
    let at : i + 0 ≡ i = omega arith in rw at (>>=-done (store_sample sample i r))
store_from-suc sample (suc n) i r =
    let at : i + 1 + n ≡ i + suc n = omega arith in
    >>=-ext (store_sample sample i r) (λ a. store_from-suc sample n (i + 1) a ∙ rw at)
    ∙ >>=-assoc (store_sample sample i r) (store_from sample n (i + 1))
        (store_sample sample (i + suc n))

pub relocked : (s : ModbusState) → s.lock ≡ true → locked (unlocked s) ≡ s
relocked s taken = rw (← taken)

pub zero_add : (i : ℕ) → 0 + i ≡ i
zero_add i = omega arith

-- How the device `s` stands to the device `d` behind the last unlock: the ADC thread has stored some
-- channels of a sample, or nothing has changed.
abbrev pub Since : AdcPc → ModbusState → ModbusState → Type 0
Since (storing sample i) d s =
    (t : ModbusState) × (serve_reset (locked d) ≡ done t)
    × (store_from sample i 0 t.input ≡ done s.input)
    × (s.holding ≡ t.holding)
Since opening d s = unlocked s ≡ d
Since starting d s = unlocked s ≡ d
Since waiting d s = unlocked s ≡ d
Since (serving _) d s = unlocked s ≡ d

pub Since-idle : (p : AdcPc) (d s : ModbusState) → adc_in p ≡ 0 → Since p d s → unlocked s ≡ d
Since-idle opening d s e k = k
Since-idle starting d s e k = absurd (omega arith)
Since-idle waiting d s e k = k
Since-idle (serving sample) d s e k = absurd (omega arith)
Since-idle (storing sample i) d s e k = absurd (omega arith)

pub idle-Since : (p : AdcPc) (d s : ModbusState) → adc_in p ≡ 0 → unlocked s ≡ d → Since p d s
idle-Since opening d s e k = k
idle-Since starting d s e k = absurd (omega arith)
idle-Since waiting d s e k = k
idle-Since (serving sample) d s e k = absurd (omega arith)
idle-Since (storing sample i) d s e k = absurd (omega arith)

-- The parts of a round of the ADC thread make a round.
pub whole_round :
    (sample : List ℤ) (d t s : ModbusState)
    → d.lock ≡ false
    → serve_reset (locked d) ≡ done t
    → store_from sample adc_samples 0 t.input ≡ done s.input
    → s.holding ≡ t.holding
    → adc_round (pos 0) (pos 0) sample d ≡ done (unlocked s, t.holding.interval)
unfolding adc_round
whole_round sample d t s free serve stored same = simp (free, serve, stored, same)
