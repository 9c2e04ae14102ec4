-- ===== src/Modbus/Adc.antt =====
-- The ADC thread of modbusslave_main.c: ADC_RAW_TO_MILIVOLT, adc_reset_stats, and thread_adc with its
-- loop. What the ADC driver returns is an argument.
pub mod Convert
pub mod Average
pub mod Channels
pub mod Rounds
pub mod Statistics
use railab_nuttx_code.Prelude.{
  ℕ, zero, suc, ◌+◌, ◌-◌, Bool, true, false, ◌&&◌, List, ℤ, pos, ◌+ℤ◌, ◌-ℤ◌, ltb_ℤ, shr_ℤ, int16,
  int16_max, int16_min, Outcome, done, blocked, fault, ◌>>=◌, fetch, store, if◌then◌else◌, ◌==◌,
}
use railab_nuttx_code.Modbus.State.{
  ModbusInput, ModbusHolding, ModbusState, mutex_lock, mutex_unlock, adc_samples, ema_alpha_shift,
}
use Convert.{raw_to_milivolt}

-- MIN and MAX of two `int16_t`.
abbrev pub min_ℤ : ℤ → ℤ → ℤ
min_ℤ a b = if ltb_ℤ a b then a else b

abbrev pub max_ℤ : ℤ → ℤ → ℤ
max_ℤ a b = if ltb_ℤ b a then a else b

-- The exponential moving average: computed in `int`, stored in `int16_t`.
unfoldable pub ema : (now avg : ℤ) → ℤ
ema now avg = int16 (avg +ℤ shr_ℤ (now -ℤ avg) ema_alpha_shift)

-- adc_reset_stats, with `left` rounds left.
unfoldable pub reset_from : (left i : ℕ) → ModbusInput → Outcome ModbusInput
reset_from zero i r = done r
reset_from (suc left) i r = do
  min ← store r.min i int16_max
  max ← store r.max i int16_min
  avg ← store r.avg i (pos 0)
  reset_from left (i + 1) (record r { min = min; max = max; avg = avg })

unfoldable pub adc_reset_stats : ModbusInput → Outcome ModbusInput
adc_reset_stats r = reset_from adc_samples 0 r

-- The body of the loop that stores the samples, and the loop with `left` rounds left.
unfoldable pub store_sample : (sample : List ℤ) (i : ℕ) → ModbusInput → Outcome ModbusInput
store_sample sample i r = do
  raw ← fetch sample i
  mv ← raw_to_milivolt raw
  let now = int16 mv
  nows ← store r.now i now
  min ← fetch r.min i
  mins ← store r.min i (min_ℤ now min)
  max ← fetch r.max i
  maxs ← store r.max i (max_ℤ now max)
  avg ← fetch r.avg i
  avgs ← store r.avg i (ema now avg)
  done (record r { now = nows; min = mins; max = maxs; avg = avgs })

unfoldable pub store_from : (sample : List ℤ) (left i : ℕ) → ModbusInput → Outcome ModbusInput
store_from sample zero i r = done r
store_from sample (suc left) i r = do r ← store_sample sample i r; store_from sample left (i + 1) r

-- thread_adc up to its loop: nothing if the device does not open, or else the first reset.
unfoldable pub thread_adc_start : (fd : ℤ) → ModbusState → Outcome (ModbusState × Bool)
thread_adc_start fd s = if ltb_ℤ fd (pos 0) then done (s, false) else (do
  s ← mutex_lock s
  r ← adc_reset_stats s.input
  done (mutex_unlock (record s { input = record r { status = 1 } }), true))

-- A request to reset the statistics, served under the lock.
unfoldable pub serve_reset : ModbusState → Outcome ModbusState
serve_reset s = if s.holding.rst_stats == 0 then done s else (do
  r ← adc_reset_stats s.input
  done (record s { input = r; holding = record s.holding { rst_stats = 0 } }))

-- One round of the loop of thread_adc: `trigger` and `ret` are what `ioctl` and `read` return, which
-- the code only prints, and `sample` is the buffer after the read. The result is the time to sleep.
unfoldable pub adc_round :
    (trigger ret : ℤ) (sample : List ℤ) → ModbusState → Outcome (ModbusState × ℕ)
adc_round trigger ret sample s = do
  s ← mutex_lock s
  s ← serve_reset s
  r ← store_from sample adc_samples 0 s.input
  done (mutex_unlock (record s { input = r }), s.holding.interval)
