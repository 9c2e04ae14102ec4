-- ===== src/Modbus/Adc/Rounds.antt =====
-- One round of the ADC thread: what the device state is afterwards.
use railab_nuttx_code.Prelude.{
  ℕ, ◌<◌, ◌≡◌, refl, ◌∙◌, ap, inl, inr, true, false, List, ℤ, pos, done, length, if◌then◌else◌,
  ◌==◌, ==_iff, Bool-cases, arith, ltb_ℤ,
}
use railab_nuttx_code.Modbus.State.{ModbusState, IsShaped, adc_samples}
use railab_nuttx_code.Modbus.Ready.{IsReady}
use railab_nuttx_code.Modbus.Adc.{adc_reset_stats, serve_reset, thread_adc_start, adc_round}
use railab_nuttx_code.Modbus.Adc.Channels.{
  Channel, channel, observe, forget, reading, AllFit, store_from-IsMapped, reset_from-IsMapped,
}

-- The channel on which the next round builds: forgotten, if a reset is requested.
abbrev pub base : ModbusState → ℕ → Channel
base s j = if s.holding.rst_stats == 0 then channel s.input j else forget (channel s.input j)

-- `out` is `s` after a round that reads `sample`.
pub record IsRound (sample : List ℤ) (s out : ModbusState) : Type 0 where
  pub ready : IsReady out
  pub served : out.holding.rst_stats ≡ 0
  pub interval : out.holding.interval ≡ s.holding.interval
  pub status : out.input.status ≡ s.input.status
  pub cntr : out.input.cntr ≡ s.input.cntr
  pub channels :
      (j : ℕ) → j < adc_samples → channel out.input j ≡ observe (reading sample j) (base s j)

-- What serving a reset request leaves, with the mutex held.
pub record IsServed (s out : ModbusState) : Type 0 where
  pub lock : out.lock ≡ s.lock
  pub shaped : IsShaped out.input
  pub served : out.holding.rst_stats ≡ 0
  pub interval : out.holding.interval ≡ s.holding.interval
  pub status : out.input.status ≡ s.input.status
  pub cntr : out.input.cntr ≡ s.input.cntr
  pub channels : (j : ℕ) → j < adc_samples → channel out.input j ≡ base s j

pub serve_reset-IsServed :
    (s : ModbusState)
    → IsShaped s.input
    → (out : ModbusState) × (serve_reset s ≡ done out) × IsServed s out
unfolding serve_reset adc_reset_stats
serve_reset-IsServed s h = elim (Bool-cases (s.holding.rst_stats == 0)) [
  | inl idle ↦ (
    s,
    rw idle,
    record {
      lock = refl;
      shaped = h;
      served = (==_iff s.holding.rst_stats 0).0 idle;
      interval = refl;
      status = refl;
      cntr = refl;
      channels = λ j p. rw idle;
    },
  )
  | inr asked ↦
      let (r, run, m) = reset_from-IsMapped adc_samples 0 s.input h refl in
      (
        record s { input = r; holding = record s.holding { rst_stats = 0 } },
        rw (asked, run),
        record {
          lock = refl;
          shaped = m.shaped;
          served = refl;
          interval = refl;
          status = m.status;
          cntr = m.cntr;
          channels = λ j p. rw asked (m.inside j (omega arith) p);
        },
      )
]

-- From a valid state with the mutex free, and with four counts whose conversion fits `int`, a round
-- returns the sampling interval, serves and clears a reset request, and observes each count on its
-- channel; the other registers and the invariant stay.
pub adc_round_lem :
    (trigger ret : ℤ) (sample : List ℤ) (s : ModbusState)
    → IsReady s
    → length sample ≡ adc_samples
    → AllFit sample
    → (out : ModbusState) × (adc_round trigger ret sample s ≡ done (out, s.holding.interval))
      × IsRound sample s out
unfolding adc_round
adc_round_lem trigger ret sample s k len fits =
    let locked = record s { lock = true } in
    let (t, serve, a) = serve_reset-IsServed locked k.valid.shaped in
    let (r, run, m) = store_from-IsMapped sample adc_samples 0 t.input a.shaped refl len fits in
    (
      record t { input = r; lock = false },
      simp (k.free, serve, run, a.interval),
      record {
        ready = record {
          valid = record {
            status = rw (m.status, a.status) k.valid.status;
            cntr = rw (m.cntr, a.cntr) k.valid.cntr;
            interval = rw a.interval k.valid.interval;
            rst_stats = rw a.served (omega arith);
            shaped = m.shaped;
          };
          free = refl;
        };
        served = a.served;
        interval = a.interval;
        status = m.status ∙ a.status;
        cntr = m.cntr ∙ a.cntr;
        channels =
            λ j p. m.inside j (omega arith) p ∙ ap (observe (reading sample j)) (a.channels j p);
      },
    )

-- From a valid state with the mutex free and with a device that opens, thread_adc enters its loop
-- with the device marked ready, every channel's statistics forgotten and all else as it was.
pub thread_adc_start_lem :
    (fd : ℤ) (s : ModbusState)
    → IsReady s
    → ltb_ℤ fd (pos 0) ≡ false
    → (out : ModbusState) × (thread_adc_start fd s ≡ done (out, true))
      × IsReady out
      × (out.input.status ≡ 1)
      × (out.input.cntr ≡ s.input.cntr)
      × (out.holding ≡ s.holding)
      × ((j : ℕ) → j < adc_samples → channel out.input j ≡ forget (channel s.input j))
unfolding thread_adc_start adc_reset_stats
thread_adc_start_lem fd s k e =
    let (r, run, m) = reset_from-IsMapped adc_samples 0 s.input k.valid.shaped refl in
    (
      record s { input = record r { status = 1 }; lock = false },
      simp (e, k.free, run),
      record {
        valid = record {
          status = omega arith;
          cntr = rw m.cntr k.valid.cntr;
          interval = k.valid.interval;
          rst_stats = k.valid.rst_stats;
          shaped = record {
            now = m.shaped.now;
            min = m.shaped.min;
            max = m.shaped.max;
            avg = m.shaped.avg;
          };
        };
        free = refl;
      },
      refl,
      m.cntr,
      refl,
      λ j p. m.inside j (omega arith) p,
    )
