-- ===== src/Modbus/Account/Registers.antt =====
-- The registers of the sequential device against the account.
use railab_nuttx_code.Prelude.{
  ℕ, ◌+◌, ◌%◌, ◌^◌, ◌≡◌, refl, sym, ap, ap₂, ◌∙◌, true, false, List, ℤ, pos, ltb_ℤ, done,
  done-injective, arith, Bool-cases, inl, inr,
}
use railab_nuttx_code.Modbus.State.{ModbusState, ModbusHolding}
use railab_nuttx_code.Modbus.Ready.{IsReady}
use railab_nuttx_code.Modbus.Wire.{SwapsBytes}
use railab_nuttx_code.Modbus.Callbacks.{Reply}
use railab_nuttx_code.Modbus.Callbacks.Invariant.{reg_input_cb-IsReady, reg_holding_cb-IsReady}
use railab_nuttx_code.Modbus.Adc.{thread_adc_start, adc_round}
use railab_nuttx_code.Modbus.Adc.Rounds.{thread_adc_start_lem, adc_round_lem}
use railab_nuttx_code.Modbus.Adc.Statistics.{IsSample}
use railab_nuttx_code.Modbus.Device.{main_round}
use railab_nuttx_code.Modbus.Threads.{Request, input, holding}
use railab_nuttx_code.Modbus.Serial.{
  Event, counted, started_adc, sampled, callback, Serial, begin, count, call, open_adc, convert,
}
use railab_nuttx_code.Modbus.Account.{Account, told, account, powered, AreRequests}
use railab_nuttx_code.Modbus.Account.Requests.{callback-after}

-- The account is true of the device, but for its channels.
pub record Tells (a : Account) (s : ModbusState) : Type 0 where
  pub ready : IsReady s
  pub cntr : s.input.cntr ≡ a.cntr
  pub status : s.input.status ≡ a.status
  pub holding : s.holding ≡ a.holding

-- thread_adc does not go on when the device does not open.
not_opened :
    (fd : ℤ) (s t : ModbusState)
    → ltb_ℤ fd (pos 0) ≡ true
    → thread_adc_start fd s ≡ done (t, true)
    → ⊥
unfolding thread_adc_start
not_opened fd s t closed run =
    let e = done-injective _ _ (rw closed at run) in absurd (cc (ap (λ p. p.1) e))

module _ (a : Account) (s t : ModbusState) (k : Tells a s) where
  count-Tells : main_round s ≡ done t → Tells (told counted a) t
  unfolding main_round
  count-Tells run =
      let counting = record s.input { cntr = (s.input.cntr + 1) % 2 ^ 16 } in
      let run' : main_round s ≡ done (record s { input = counting; lock = false }) =
        rw k.ready.free in
      let e : record s { input = counting; lock = false } ≡ t =
        done-injective _ _ (sym run' ∙ run) in
      let v = k.ready.valid in
      rw (← e) (record {
        ready = record {
          valid = record {
            status = v.status;
            cntr = omega arith;
            interval = v.interval;
            rst_stats = v.rst_stats;
            shaped = record {
              now = v.shaped.now;
              min = v.shaped.min;
              max = v.shaped.max;
              avg = v.shaped.avg;
            };
          };
          free = refl;
        };
        cntr = ap (λ c. (c + 1) % 2 ^ 16) k.cntr;
        status = k.status;
        holding = k.holding;
      })

  open-Tells : (fd : ℤ) → thread_adc_start fd s ≡ done (t, true) → Tells (told started_adc a) t
  open-Tells fd run = elim (Bool-cases (ltb_ℤ fd (pos 0))) [
    | inl closed ↦ absurd (not_opened fd s t closed run)
    | inr opens ↦
        let (out, run', ready, status, cntr, same, _) = thread_adc_start_lem fd s k.ready opens in
        let e : out ≡ t = ap (λ p. p.0) (done-injective _ _ (sym run' ∙ run)) in
        rw (← e) (record {
          ready = ready;
          cntr = cntr ∙ k.cntr;
          status = status;
          holding = same ∙ k.holding;
        })
  ]

  convert-Tells :
      (trigger ret : ℤ) (sample : List ℤ) (interval : ℕ)
      → IsSample sample
      → adc_round trigger ret sample s ≡ done (t, interval)
      → Tells (told (sampled sample) a) t
  convert-Tells trigger ret sample interval fit run =
      let (out, run', r) = adc_round_lem trigger ret sample s k.ready fit.0 fit.1 in
      let e : out ≡ t = ap (λ p. p.0) (done-injective _ _ (sym run' ∙ run)) in
      let same : out.holding ≡ record a.holding { rst_stats = 0 } =
        ap₂ (λ i c. record { interval = i; rst_stats = c })
          (r.interval ∙ ap (λ (h : ModbusHolding). h.interval) k.holding) r.served in
      rw (← e) (record {
        ready = r.ready;
        cntr = r.cntr ∙ k.cntr;
        status = r.status ∙ k.status;
        holding = same;
      })

module _ (htobe16 be16toh : ℕ → ℕ) (swap_out : SwapsBytes htobe16)
    (swap_in : SwapsBytes be16toh) where
  callback-keeps :
      (q : Request) (s : ModbusState) (r : Reply)
      → IsReady s
      → callback htobe16 be16toh q s ≡ done r
      → IsReady r.state × (r.state.input ≡ s.input)
  callback-keeps (input buffer address nregs) s r k run =
      reg_input_cb-IsReady htobe16 be16toh s buffer address nregs r k.valid run
  callback-keeps (holding buffer address nregs mode) s r k run =
      reg_holding_cb-IsReady htobe16 be16toh s buffer address nregs mode r k.valid run

  pub Serial-Tells :
      {start : ModbusState} {es : List Event} {s : ModbusState}
      → Tells powered start
      → AreRequests es
      → Serial htobe16 be16toh start es s
      → Tells (account es) s
  Serial-Tells k fit begin = k
  Serial-Tells k fit (count p run) = count-Tells _ _ _ (Serial-Tells k fit p) run
  Serial-Tells k fit (call q r p run) =
      let before = Serial-Tells k fit.1 p in
      let (ready, same) = callback-keeps q _ r before.ready run in
      let after =
        callback-after htobe16 be16toh swap_out swap_in q _ r before.ready.free fit.0 run in
      record {
        ready = ready;
        cntr = rw same before.cntr;
        status = rw same before.status;
        holding = rw (after, before.holding) refl;
      }
  Serial-Tells k fit (open_adc fd p run) = open-Tells _ _ _ (Serial-Tells k fit p) fd run
  Serial-Tells k fit (convert trigger ret sample interval p is run) =
      convert-Tells _ _ _ (Serial-Tells k fit p) trigger ret sample interval is run
