-- ===== src/Modbus/Threads/Preserve.antt =====
-- Every step of the threads keeps the invariant.
use railab_nuttx_code.Prelude.{
  ℕ, suc, ◌<◌, ◌^◌, ◌≡◌, refl, sym, ◌∙◌, ap, List, [], ℤ, done, arith, ℕ_discrete,
}
use mathlib.Core.Path.{subst}
use railab_nuttx_code.Modbus.State.{
  ModbusInput, ModbusState, IsValid, IsShaped, adc_samples, unlocked,
}
use railab_nuttx_code.Modbus.Ready.{relock-IsValid}
use railab_nuttx_code.Modbus.Callbacks.{Reply}
use railab_nuttx_code.Modbus.Callbacks.Invariant.{
  KeepsState, input_locked-KeepsState, holding_locked-KeepsState,
}
use railab_nuttx_code.Modbus.Adc.{adc_reset_stats, serve_reset, store_sample}
use railab_nuttx_code.Modbus.Adc.Channels.{
  Channel, channel, observe, forget, reading, put_channel, put_channel-IsMapped, store_sample-done,
  reset_from-IsMapped,
}
use railab_nuttx_code.Modbus.Adc.Rounds.{serve_reset-IsServed}
use railab_nuttx_code.Modbus.Threads.{
  Request, input, holding, AdcPc, starting, waiting, serving, storing, System, kept, answer, Step,
  main_lock, main_count, modbus_lock, modbus_reply, adc_open, adc_start, adc_lock, adc_serve,
  adc_store, adc_unlock,
}
use railab_nuttx_code.Modbus.Threads.Invariant.{View, Sampled, Inv, Shows-observe, Shows-base}

done-eq {ℓ} : {A : Type ℓ} {a b : A} → done a ≡ done b → a ≡ b
done-eq e = cc

-- New input registers that fit.
reinput-IsValid :
    (s : ModbusState) (r : ModbusInput)
    → IsValid s
    → r.status < 2 ^ 16
    → r.cntr < 2 ^ 16
    → IsShaped r
    → IsValid (record s { input = r })
reinput-IsValid s r v st cn sh = record {
  status = st;
  cntr = cn;
  interval = v.interval;
  rst_stats = v.rst_stats;
  shaped = sh;
}

View-at :
    {p q : AdcPc} (h : List (List ℤ)) (j : ℕ) (c : Channel) → p ≡ q → View p h j c → View q h j c
View-at h j c e k = subst (λ (x : AdcPc). View x h j c) e k

-- The first critical section of the ADC thread.
start-Inv :
    (s : System) (r : ModbusInput)
    → s.adc ≡ starting
    → adc_reset_stats s.device.input ≡ done r
    → Inv s
    → Inv (record s {
      device = unlocked (record s.device { input = record r { status = 1 } });
      adc = waiting;
      history = [];
    })
unfolding adc_reset_stats
start-Inv s r at run k =
    let (out, run', m) = reset_from-IsMapped adc_samples 0 s.device.input k.valid.shaped refl in
    let e : r ≡ out = done-eq (sym run ∙ run') in
    let sh : IsShaped (record out { status = 1 }) = record {
      now = m.shaped.now;
      min = m.shaped.min;
      max = m.shaped.max;
      avg = m.shaped.avg;
    } in
    rw e (record {
      valid =
          (relock-IsValid _ (
            reinput-IsValid s.device (record out { status = 1 }) k.valid (omega arith)
              (rw m.cntr k.valid.cntr) sh)).1;
      held = ground (arith, k.held);
      sampled = tt;
      shows = λ j p. let q = m.inside j (omega arith) p in q ∙ ap forget (sym q);
    })

serve-Inv :
    (s : System) (sample : List ℤ) (t : ModbusState)
    → s.adc ≡ serving sample
    → serve_reset s.device ≡ done t
    → Inv s
    → Inv (record s { device = t; adc = storing sample 0; history = kept s.device s.history })
serve-Inv s sample t at run k =
    let (out, run', a) = serve_reset-IsServed s.device k.valid.shaped in
    let e : t ≡ out = done-eq (sym run ∙ run') in
    rw e (record {
      valid = record {
        status = rw a.status k.valid.status;
        cntr = rw a.cntr k.valid.cntr;
        interval = rw a.interval k.valid.interval;
        rst_stats = rw a.served (omega arith);
        shaped = a.shaped;
      };
      held = rw a.lock (ground (arith, k.held));
      sampled = (subst Sampled at k.sampled, omega arith);
      shows = λ j p. (
        λ lt. absurd (omega arith),
        λ _. rw (a.channels j p) (
            Shows-base s.device s.history j
              (View-at s.history j (channel s.device.input j) at (k.shows j p))),
      );
    })

store-Inv :
    (s : System) (sample : List ℤ) (i : ℕ) (r : ModbusInput)
    → s.adc ≡ storing sample i
    → i < adc_samples
    → store_sample sample i s.device.input ≡ done r
    → Inv s
    → Inv (record s { device = record s.device { input = r }; adc = storing sample (suc i) })
store-Inv s sample i r at below run k =
    let before = s.device.input in
    let fit = subst Sampled at k.sampled in
    let f = λ (j : ℕ). observe (reading sample j) in
    let m = put_channel-IsMapped f before i k.valid.shaped below in
    let run' = store_sample-done sample before i k.valid.shaped below fit.0.0 (fit.0.1 i below) in
    let e : r ≡ put_channel before i (f i (channel before i)) = done-eq (sym run ∙ run') in
    let view =
      λ (j : ℕ) (p : j < adc_samples). View-at s.history j (channel before j) at (k.shows j p) in
    rw e (record {
      valid = reinput-IsValid s.device _ k.valid k.valid.status k.valid.cntr m.shaped;
      held = ground (arith, k.held);
      sampled = (fit.0, omega arith);
      shows = λ j p. elim (ℕ_discrete j i) [
        | yes same ↦ (
          λ lt.
              rw (m.inside j (omega arith) (omega arith))
                (Shows-observe sample s.history j (channel before j) ((view j p).1 (omega arith))),
          λ le. absurd (omega arith),
        )
        | no ne ↦ (
          λ lt. rw (m.outside j (omega arith)) ((view j p).0 (omega arith)),
          λ le. rw (m.outside j (omega arith)) ((view j p).1 (omega arith)),
        )
      ];
    })

module _ (htobe16 be16toh : ℕ → ℕ) where
  answer-KeepsState :
      (q : Request) (s : ModbusState) {r : Reply}
      → IsValid s
      → answer htobe16 be16toh q s ≡ done r
      → KeepsState s r
  answer-KeepsState (input buffer address nregs) s v e =
      input_locked-KeepsState htobe16 be16toh s buffer address nregs v e
  answer-KeepsState (holding buffer address nregs mode) s v e =
      holding_locked-KeepsState htobe16 be16toh s buffer address nregs mode v e

  pub Step-Inv : {s t : System} → Step htobe16 be16toh s t → Inv s → Inv t
  Step-Inv {s} (main_lock at free) k = record {
    valid = (relock-IsValid s.device k.valid).0;
    held = ground (arith, k.held);
    sampled = k.sampled;
    shows = k.shows;
  }
  Step-Inv {s} (main_count at) k = record {
    valid =
        (relock-IsValid _ (
          reinput-IsValid s.device _ k.valid k.valid.status (omega arith) (record {
            now = k.valid.shaped.now;
            min = k.valid.shaped.min;
            max = k.valid.shaped.max;
            avg = k.valid.shaped.avg;
          }))).1;
    held = ground (arith, k.held);
    sampled = k.sampled;
    shows = k.shows;
  }
  Step-Inv {s} (modbus_lock q at free) k = record {
    valid = (relock-IsValid s.device k.valid).0;
    held = ground (arith, k.held);
    sampled = k.sampled;
    shows = k.shows;
  }
  Step-Inv {s} (modbus_reply q r at run) k =
      let still = answer-KeepsState q s.device k.valid run in
      record {
        valid = (relock-IsValid r.state still.valid).1;
        held = ground (arith, k.held);
        sampled = k.sampled;
        shows = λ j p. rw still.input (k.shows j p);
      }
  Step-Inv {s} (adc_open at free) k = record {
    valid = (relock-IsValid s.device k.valid).0;
    held = ground (arith, k.held);
    sampled = tt;
    shows = λ j p. View-at s.history j (channel s.device.input j) at (k.shows j p);
  }
  Step-Inv {s} (adc_start r at run) k = start-Inv s r at run k
  Step-Inv {s} (adc_lock sample at free fit) k = record {
    valid = (relock-IsValid s.device k.valid).0;
    held = ground (arith, k.held);
    sampled = fit;
    shows = λ j p. View-at s.history j (channel s.device.input j) at (k.shows j p);
  }
  Step-Inv {s} (adc_serve sample t at run) k = serve-Inv s sample t at run k
  Step-Inv {s} (adc_store sample i r at below run) k = store-Inv s sample i r at below run k
  Step-Inv {s} (adc_unlock sample at) k = record {
    valid = (relock-IsValid s.device k.valid).1;
    held = ground (arith, k.held);
    sampled = tt;
    shows = λ j p. (View-at s.history j (channel s.device.input j) at (k.shows j p)).0 p;
  }
