-- ===== src/Modbus/Threads/Invariant.antt =====
-- The invariant of the threads: who holds the mutex, and which samples the channels show.
use railab_nuttx_code.Prelude.{
  ℕ, ◌+◌, ◌≤◌, ◌<◌, ◌≡◌, sym, inl, inr, List, [], ◌∷◌, ℤ, pos, if◌then◌else◌, ◌==◌, Bool-cases,
  int16-IsInt16,
}
use mathlib.Core.Path.{subst}
use railab_nuttx_code.Modbus.State.{ModbusState, IsValid, adc_samples}
use railab_nuttx_code.Modbus.Adc.Channels.{Channel, channel, observe, forget, reading}
use railab_nuttx_code.Modbus.Adc.Rounds.{base}
use railab_nuttx_code.Modbus.Adc.Statistics.{
  Summarises, IsSample, readings, observe-forget-Summarises, observe-Summarises,
}
use railab_nuttx_code.Modbus.Threads.{
  MainPc, asleep, counting, AdcPc, opening, starting, waiting, serving, storing, ModbusPc, polling,
  answering, System, kept,
}

-- 1 for a thread between its lock and its unlock.
abbrev pub main_in : MainPc → ℕ
main_in asleep = 0
main_in counting = 1

abbrev pub adc_in : AdcPc → ℕ
adc_in opening = 0
adc_in starting = 1
adc_in waiting = 0
adc_in (serving _) = 1
adc_in (storing _ _) = 1

abbrev pub modbus_in : ModbusPc → ℕ
modbus_in polling = 0
modbus_in (answering _) = 1

-- A channel shows a history: forgotten statistics for none, or a summary of its readings.
abbrev pub Shows : List (List ℤ) → ℕ → Channel → Type 0
Shows [] j c = c ≡ forget c
Shows (sample ∷ older) j c = Summarises (reading sample j) (readings j older) c

-- As `main` leaves it.
abbrev pub IsBlank : Channel → Type 0
IsBlank c = c ≡ record { now = pos 0; min = pos 0; max = pos 0; avg = pos 0 }

-- What channel `j` shows while the ADC thread stands at a place.
abbrev pub View : AdcPc → List (List ℤ) → ℕ → Channel → Type 0
View opening h j c = IsBlank c
View starting h j c = IsBlank c
View waiting h j c = Shows h j c
View (serving _) h j c = Shows h j c
View (storing sample i) h j c =
    (j < i → Summarises (reading sample j) (readings j h) c) × (i ≤ j → Shows h j c)

abbrev pub Sampled : AdcPc → Type 0
Sampled (serving sample) = IsSample sample
Sampled (storing sample i) = IsSample sample × (i ≤ adc_samples)
Sampled _ = Unit

pub record Inv (s : System) : Type 0 where
  pub valid : IsValid s.device
  pub held : (if s.device.lock then 1 else 0) ≡ main_in s.main + adc_in s.adc + modbus_in s.modbus
  pub sampled : Sampled s.adc
  pub shows : (j : ℕ) → j < adc_samples → View s.adc s.history j (channel s.device.input j)

pub Shows-observe :
    (sample : List ℤ) (h : List (List ℤ)) (j : ℕ) (c : Channel)
    → Shows h j c
    → Summarises (reading sample j) (readings j h) (observe (reading sample j) c)
Shows-observe sample [] j c e =
    subst (λ (x : Channel). Summarises (reading sample j) [] (observe (reading sample j) x)) (sym e)
      (observe-forget-Summarises (reading sample j) c (int16-IsInt16 _))
Shows-observe sample (before ∷ older) j c k =
    observe-Summarises (reading sample j) (reading before j) (readings j older) c k

pub Shows-base :
    (s : ModbusState) (h : List (List ℤ)) (j : ℕ)
    → Shows h j (channel s.input j)
    → Shows (kept s h) j (base s j)
Shows-base s h j k = elim (Bool-cases (s.holding.rst_stats == 0)) [
  | inl idle ↦ rw idle k
  | inr asked ↦ rw asked
]
