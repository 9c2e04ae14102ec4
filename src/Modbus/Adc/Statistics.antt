-- ===== src/Modbus/Adc/Statistics.antt =====
-- The statistics registers against the history of readings since the last reset.
use railab_nuttx_code.Prelude.{
  ℕ, suc, ◌<◌, ◌≡◌, refl, sym, ap, ◌≢◌, inl, inr, true, false, List, [], ◌∷◌, map, ℤ, pos, Outcome,
  done, ◌>>=◌, length, ◌==◌, Bool-cases, arith, ltb_ℤ, ◌≤ℤ◌, int16_max, int16_min, IsInt16,
  int16-IsInt16, eq_of_parts, All, All-map, get_elem?, some,
}
use railab_nuttx_code.Modbus.State.{ModbusState, adc_samples}
use railab_nuttx_code.Modbus.Ready.{IsReady}
use railab_nuttx_code.Modbus.Adc.{min_ℤ, max_ℤ, ema, adc_round, thread_adc_start}
use railab_nuttx_code.Modbus.Adc.Channels.{Channel, channel, observe, forget, reading, AllFit}
use railab_nuttx_code.Modbus.Adc.Rounds.{base, adc_round_lem, thread_adc_start_lem}

-- The value occurs in the history.
abbrev pub Occurs : ℤ → List ℤ → Type 0
Occurs v vs = (k : ℕ) × (get_elem? vs k ≡ some v)

-- The moving average of a history, its newest value first.
abbrev pub average : List ℤ → ℤ
average [] = pos 0
average (v ∷ vs) = ema v (average vs)

-- A channel summarises a history with a newest value: `now` is that value, `min` and `max` are its
-- least and its greatest value, and `avg` is its moving average.
pub record Summarises (newest : ℤ) (older : List ℤ) (c : Channel) : Type 0 where
  pub now : c.now ≡ newest
  pub min_occurs : Occurs c.min (newest ∷ older)
  pub min_least : All (λ v. c.min ≤ℤ v) (newest ∷ older)
  pub max_occurs : Occurs c.max (newest ∷ older)
  pub max_greatest : All (λ v. v ≤ℤ c.max) (newest ∷ older)
  pub avg : c.avg ≡ average (newest ∷ older)

-- The first value after a reset.
pub observe-forget-Summarises :
    (v : ℤ) (c : Channel) → IsInt16 v → Summarises v [] (observe v (forget c))
observe-forget-Summarises v c h =
    let low : min_ℤ v int16_max ≡ v = ground (arith, eq_of_parts v int16_max) in
    let high : max_ℤ v int16_min ≡ v = ground (arith, eq_of_parts v int16_min) in
    record {
      now = refl;
      min_occurs = (0, ap some (sym low));
      min_least = (rw low (omega arith), tt);
      max_occurs = (0, ap some (sym high));
      max_greatest = (rw high (omega arith), tt);
      avg = refl;
    }

-- A further value.
pub observe-Summarises :
    (v newest : ℤ) (older : List ℤ) (c : Channel)
    → Summarises newest older c
    → Summarises v (newest ∷ older) (observe v c)
observe-Summarises v newest older c k =
    let vs = newest ∷ older in
    let low : (min_ℤ v c.min ≤ℤ v) × (min_ℤ v c.min ≤ℤ c.min) = ground arith in
    let high : (v ≤ℤ max_ℤ v c.max) × (c.max ≤ℤ max_ℤ v c.max) = ground arith in
    record {
      now = refl;
      min_occurs = elim (Bool-cases (ltb_ℤ v c.min)) [
        | inl new ↦ (0, rw new)
        | inr old ↦ (suc k.min_occurs.0, rw old k.min_occurs.1)
      ];
      min_least = (low.0, All-map (λ x. c.min ≤ℤ x) _ vs (λ x h. omega arith) k.min_least);
      max_occurs = elim (Bool-cases (ltb_ℤ c.max v)) [
        | inl new ↦ (0, rw new)
        | inr old ↦ (suc k.max_occurs.0, rw old k.max_occurs.1)
      ];
      max_greatest = (high.0, All-map (λ x. x ≤ℤ c.max) _ vs (λ x h. omega arith) k.max_greatest);
      avg = ap (ema v) k.avg;
    }

-- Rounds of the ADC thread, the newest sample first.
abbrev pub run_rounds : List (List ℤ) → ModbusState → Outcome ModbusState
run_rounds [] s = done s
run_rounds (sample ∷ older) s = do
  s ← run_rounds older s
  (s, interval) ← adc_round (pos 0) (pos 0) sample s
  done s

-- Samples of four counts whose conversion fits `int`.
abbrev pub IsSample : List ℤ → Type 0
IsSample sample = (length sample ≡ adc_samples) × AllFit sample

-- The readings of one channel.
abbrev pub readings : ℕ → List (List ℤ) → List ℤ
readings j = map (λ sample. reading sample j)

pub record IsTracked (sample : List ℤ) (older : List (List ℤ)) (s out : ModbusState) : Type 0 where
  pub ready : IsReady out
  pub served : out.holding.rst_stats ≡ 0
  pub summaries :
      (j : ℕ)
      → j < adc_samples
      → Summarises (reading sample j) (readings j older) (channel out.input j)

-- The state before the first round counts as reset: every channel builds on forgotten statistics.
abbrev pub IsFresh : ModbusState → Type 0
IsFresh s = (j : ℕ) → j < adc_samples → (c : Channel) × (base s j ≡ forget c)

fresh_start :
    (s : ModbusState) (j : ℕ) (c : Channel)
    → channel s.input j ≡ forget c
    → (d : Channel) × (base s j ≡ forget d)
fresh_start s j c e = elim (Bool-cases (s.holding.rst_stats == 0)) [
  | inl idle ↦ (c, rw idle e)
  | inr asked ↦ (channel s.input j, rw asked)
]

pub run_rounds-IsTracked :
    (sample : List ℤ) (older : List (List ℤ)) (s : ModbusState)
    → IsReady s
    → IsFresh s
    → All IsSample (sample ∷ older)
    → (out : ModbusState) × (run_rounds (sample ∷ older) s ≡ done out)
      × IsTracked sample older s out
run_rounds-IsTracked sample [] s k fresh fit =
    let (out, run, r) = adc_round_lem (pos 0) (pos 0) sample s k fit.0.0 fit.0.1 in
    (
      out,
      rw run,
      record {
        ready = r.ready;
        served = r.served;
        summaries = λ j p.
            let (c, e) = fresh j p in
            rw (r.channels j p, e)
              (observe-forget-Summarises (reading sample j) c (int16-IsInt16 _));
      },
    )
run_rounds-IsTracked sample (before ∷ older) s k fresh fit =
    let (mid, first, t) = run_rounds-IsTracked before older s k fresh fit.1 in
    let (out, run, r) = adc_round_lem (pos 0) (pos 0) sample mid t.ready fit.0.0 fit.0.1 in
    (
      out,
      rw (first, run),
      record {
        ready = r.ready;
        served = r.served;
        summaries = λ j p.
            rw (r.channels j p, t.served)
              (observe-Summarises (reading sample j) (reading before j) (readings j older) _
                (t.summaries j p));
      },
    )

pub asked-IsFresh : (s : ModbusState) → s.holding.rst_stats ≢ 0 → IsFresh s
asked-IsFresh s asked j p = (channel s.input j, ground arith)

-- From a valid state with the mutex free and a reset requested, any sequence of one or more rounds
-- over samples whose conversion fits `int` returns, and each of the four channels then summarises
-- exactly the readings of these rounds: the last one, the least, the greatest and the average.
statistics_since_request :
    (sample : List ℤ) (older : List (List ℤ)) (s : ModbusState)
    → IsReady s
    → s.holding.rst_stats ≢ 0
    → All IsSample (sample ∷ older)
    → (out : ModbusState) × (run_rounds (sample ∷ older) s ≡ done out)
      × (out.holding.rst_stats ≡ 0)
      × ((j : ℕ)
          → j < adc_samples
          → Summarises (reading sample j) (readings j older) (channel out.input j))
statistics_since_request sample older s k asked fit =
    let (out, run, t) = run_rounds-IsTracked sample older s k (asked-IsFresh s asked) fit in
    (out, run, t.served, t.summaries)

-- From the start of the thread, in a valid state with the mutex free and with a device that opens,
-- one or more rounds over samples whose conversion fits `int` return; each channel then summarises
-- exactly the readings since the start, and the device is marked ready.
statistics_since_start :
    (fd : ℤ) (sample : List ℤ) (older : List (List ℤ)) (s : ModbusState)
    → IsReady s
    → ltb_ℤ fd (pos 0) ≡ false
    → All IsSample (sample ∷ older)
    → (start out : ModbusState) × (thread_adc_start fd s ≡ done (start, true))
      × (start.input.status ≡ 1)
      × (run_rounds (sample ∷ older) start ≡ done out)
      × ((j : ℕ)
          → j < adc_samples
          → Summarises (reading sample j) (readings j older) (channel out.input j))
statistics_since_start fd sample older s k opens fit =
    let (start, run, ready, status, cntr, holding, reset) = thread_adc_start_lem fd s k opens in
    let fresh : IsFresh start = λ j p. fresh_start start j (channel s.input j) (reset j p) in
    let (out, rounds, t) = run_rounds-IsTracked sample older start ready fresh fit in
    (start, out, run, status, rounds, t.summaries)
