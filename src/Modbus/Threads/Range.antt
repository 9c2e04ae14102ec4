-- ===== src/Modbus/Threads/Range.antt =====
-- The physical range of the registers: with 12-bit counts every channel stays between 0 and 3300 mV.
use railab_nuttx_code.Prelude.{
  ℕ, zero, suc, ◌*◌, ◌/◌, ◌<◌, ◌≡◌, ◌⊎◌, inl, inr, false, List, [], ◌∷◌, ℤ, pos, negsuc, ◌≤ℤ◌,
  int16, int16_eq_self, get_or, get_elem?, some, All, arith,
}
use mathlib.Core.Path.{subst}
use railab_nuttx_code.Modbus.State.{ModbusState, adc_samples}
use railab_nuttx_code.Modbus.Adc.Convert.{milivolt}
use railab_nuttx_code.Modbus.Adc.Average.{ema_between}
use railab_nuttx_code.Modbus.Adc.Channels.{Channel, channel, forget, reading}
use railab_nuttx_code.Modbus.Adc.Statistics.{average, Summarises, readings}
use railab_nuttx_code.Modbus.Threads.{System, Reach}
use railab_nuttx_code.Modbus.Threads.Invariant.{IsBlank, Shows}
use railab_nuttx_code.Modbus.Threads.Snapshot.{
  IsStart, Reach-Inv, View-OneHistory, mutual_exclusion,
}

-- A sample of counts of a 12-bit converter.
abbrev pub Is12Bit : List ℤ → Type 0
Is12Bit sample =
    (j : ℕ)
    → j < adc_samples
    → (pos 0 ≤ℤ get_or sample j (pos 0)) × (get_or sample j (pos 0) ≤ℤ pos 4095)

-- What a master can read of a channel that has samples.
pub record IsPlausible (c : Channel) : Type 0 where
  pub min_pos : pos 0 ≤ℤ c.min
  pub min_le : c.min ≤ℤ c.now
  pub le_max : c.now ≤ℤ c.max
  pub max_volt : c.max ≤ℤ pos 3300
  pub avg_pos : pos 0 ≤ℤ c.avg
  pub avg_max : c.avg ≤ℤ c.max

milivolt_range :
    (raw : ℤ)
    → pos 0 ≤ℤ raw
    → raw ≤ℤ pos 4095
    → (pos 0 ≤ℤ int16 (milivolt raw)) × (int16 (milivolt raw) ≤ℤ pos 3300)
milivolt_range (pos n) low high =
    rw (int16_eq_self (pos (n * 3300 / 4095)) (omega arith)) (omega arith)
milivolt_range (negsuc n) low high = absurd (omega arith)

Occurs-All :
    (P : ℤ → Type 0) (v : ℤ) (k : ℕ) (vs : List ℤ) → All P vs → get_elem? vs k ≡ some v → P v
Occurs-All P v k [] h e = absurd (cc)
Occurs-All P v zero (w ∷ vs) h e = subst P {x = w} {y = v} (cc) h.0
Occurs-All P v (suc k) (w ∷ vs) h e = Occurs-All P v k vs h.1 e

average_range :
    (m : ℤ) (vs : List ℤ)
    → pos 0 ≤ℤ m
    → m ≤ℤ pos 3300
    → All (λ v. pos 0 ≤ℤ v) vs
    → All (λ v. v ≤ℤ m) vs
    → (pos 0 ≤ℤ average vs) × (average vs ≤ℤ m)
average_range m [] hm hv low high = omega arith
average_range m (v ∷ vs) hm hv low high =
    let old = average_range m vs hm hv low.1 high.1 in
    let e = ema_between v (average vs) (omega (arith, low.0, high.0)) (omega (arith, old)) in
    ground (arith, e, old, low.0, high.0)

readings_range :
    (j : ℕ) (history : List (List ℤ))
    → j < adc_samples
    → All Is12Bit history
    → All (λ v. pos 0 ≤ℤ v) (readings j history) × All (λ v. v ≤ℤ pos 3300) (readings j history)
readings_range j [] below h = (tt, tt)
readings_range j (sample ∷ older) below h =
    let count = h.0 j below in
    let (low, high) = milivolt_range (get_or sample j (pos 0)) count.0 count.1 in
    let (lows, highs) = readings_range j older below h.1 in ((low, lows), (high, highs))

Summarises-IsPlausible :
    (newest : ℤ) (older : List ℤ) (c : Channel)
    → All (λ v. pos 0 ≤ℤ v) (newest ∷ older)
    → All (λ v. v ≤ℤ pos 3300) (newest ∷ older)
    → Summarises newest older c
    → IsPlausible c
Summarises-IsPlausible newest older c low high k =
    let vs = newest ∷ older in
    let least = Occurs-All (λ v. pos 0 ≤ℤ v) c.min k.min_occurs.0 vs low k.min_occurs.1 in
    let most = Occurs-All (λ v. v ≤ℤ pos 3300) c.max k.max_occurs.0 vs high k.max_occurs.1 in
    let max_pos : pos 0 ≤ℤ c.max = omega (arith, low.0, k.max_greatest.0) in
    let average_in = average_range c.max vs max_pos most low k.max_greatest in
    record {
      min_pos = least;
      min_le = rw k.now k.min_least.0;
      le_max = rw k.now k.max_greatest.0;
      max_volt = most;
      avg_pos = rw k.avg average_in.0;
      avg_max = rw k.avg average_in.1;
    }

Shows-IsPlausible :
    (j : ℕ) (history : List (List ℤ)) (c : Channel)
    → j < adc_samples
    → All Is12Bit history
    → Shows history j c
    → (c ≡ forget c) ⊎ IsPlausible c
Shows-IsPlausible j [] c below h k = inl k
Shows-IsPlausible j (sample ∷ older) c below h k =
    let (low, high) = readings_range j (sample ∷ older) below h in
    inr (Summarises-IsPlausible (reading sample j) (readings j older) c low high k)

module _ (htobe16 be16toh : ℕ → ℕ) {start : ModbusState} (fresh : IsStart start) where
  -- In every reachable state in which the mutex is free, if the samples stored since the last reset are
  -- counts of a 12-bit converter, every channel is in one of three states: all zero, as before the ADC
  -- thread has started; reset, with no sample since; or with 0 <= min <= now <= max <= 3300 mV and
  -- 0 <= avg <= max.
  pub channels_in_range :
      {s : System} (j : ℕ)
      → Reach htobe16 be16toh start s
      → s.device.lock ≡ false
      → All Is12Bit s.history
      → j < adc_samples
      → IsBlank (channel s.device.input j)
        ⊎ ((channel s.device.input j ≡ forget (channel s.device.input j))
            ⊎ IsPlausible (channel s.device.input j))
  channels_in_range {s} j r free counts below =
      let out = mutual_exclusion htobe16 be16toh fresh r in
      let shows = (Reach-Inv htobe16 be16toh fresh r).shows in
      elim (View-OneHistory s.adc s.history (λ i. channel s.device.input i)
        (ground (arith, out, free)) shows) [
          | inl blank ↦ inl (blank j below)
          | inr shown ↦ inr (
              Shows-IsPlausible j s.history (channel s.device.input j) below counts (shown j below))
        ]
