-- ===== src/Modbus/Adc/Channels.antt =====
-- The four arrays of the input registers seen as channels, and what the loops of the ADC thread do
-- to each channel.
use railab_nuttx_code.Prelude.{
  ℕ, zero, suc, ◌+◌, ◌≤◌, ◌<◌, ◌≡◌, refl, ◌∙◌, ap, ◌⊎◌, inl, inr, ◌≢◌, List, ℤ, pos, int16,
  int16_max, int16_min, length, get_or, set, set-get_or, sym, length-set, get_or-set_self,
  get_or-set_ne, done, fetch-done, store-done, ℕ_discrete, arith,
}
use railab_nuttx_code.Modbus.State.{ModbusInput, IsShaped, adc_samples}
use railab_nuttx_code.Modbus.Adc.Convert.{Fits, milivolt, raw_to_milivolt_lem}
use railab_nuttx_code.Modbus.Adc.{min_ℤ, max_ℤ, ema, reset_from, store_sample, store_from}

pub record Channel : Type 0 where
  pub now : ℤ
  pub min : ℤ
  pub max : ℤ
  pub avg : ℤ

abbrev pub channel : ModbusInput → ℕ → Channel
channel r i = record {
  now = get_or r.now i (pos 0);
  min = get_or r.min i (pos 0);
  max = get_or r.max i (pos 0);
  avg = get_or r.avg i (pos 0);
}

-- A channel after one more value, and after a reset.
abbrev pub observe : ℤ → Channel → Channel
observe v c = record { now = v; min = min_ℤ v c.min; max = max_ℤ v c.max; avg = ema v c.avg }

abbrev pub forget : Channel → Channel
forget c = record c { min = int16_max; max = int16_min; avg = pos 0 }

-- What is stored for a count.
abbrev pub reading : List ℤ → ℕ → ℤ
reading sample i = int16 (milivolt (get_or sample i (pos 0)))

-- `out` has the channels of `r` from `lo` to `hi` changed by `f`, and nothing else changed.
pub record IsMapped (f : ℕ → Channel → Channel) (lo hi : ℕ) (r out : ModbusInput) : Type 0 where
  pub status : out.status ≡ r.status
  pub cntr : out.cntr ≡ r.cntr
  pub shaped : IsShaped out
  pub inside : (j : ℕ) → lo ≤ j → j < hi → channel out j ≡ f j (channel r j)
  pub outside : (j : ℕ) → (j < lo) ⊎ (hi ≤ j) → channel out j ≡ channel r j

module _ (f : ℕ → Channel → Channel) where
  IsMapped-none : (i : ℕ) (r : ModbusInput) → IsShaped r → IsMapped f i i r r
  IsMapped-none i r h = record {
    status = refl;
    cntr = refl;
    shaped = h;
    inside = λ j p q. absurd (omega arith);
    outside = λ j p. refl;
  }

  IsMapped-cons :
      (lo hi : ℕ) (r mid out : ModbusInput)
      → lo < hi
      → IsMapped f lo (lo + 1) r mid
      → IsMapped f (lo + 1) hi mid out
      → IsMapped f lo hi r out
  IsMapped-cons lo hi r mid out below one rest = record {
    status = rest.status ∙ one.status;
    cntr = rest.cntr ∙ one.cntr;
    shaped = rest.shaped;
    inside = λ j p q. elim (ℕ_discrete j lo) [
      | yes e ↦ rest.outside j (inl (omega arith)) ∙ one.inside j (omega arith) (omega arith)
      | no ne ↦ rest.inside j (omega arith) q ∙ ap (f j) (one.outside j (inr (omega arith)))
    ];
    outside = λ j p. rest.outside j (side j p) ∙ one.outside j (side' j p);
  }
    where
      side : (j : ℕ) → (j < lo) ⊎ (hi ≤ j) → (j < lo + 1) ⊎ (hi ≤ j)
      side j p = omega arith

      side' : (j : ℕ) → (j < lo) ⊎ (hi ≤ j) → (j < lo) ⊎ (lo + 1 ≤ j)
      side' j p = omega arith

-- The arrays after a write of one channel.
abbrev pub put_channel : ModbusInput → ℕ → Channel → ModbusInput
put_channel r i c = record r {
  now = set r.now i c.now;
  min = set r.min i c.min;
  max = set r.max i c.max;
  avg = set r.avg i c.avg;
}

pub put_channel-IsMapped :
    (f : ℕ → Channel → Channel) (r : ModbusInput) (i : ℕ)
    → IsShaped r
    → i < adc_samples
    → IsMapped f i (i + 1) r (put_channel r i (f i (channel r i)))
put_channel-IsMapped f r i h below =
    let c = f i (channel r i) in
    record {
      status = refl;
      cntr = refl;
      shaped = record {
        now = length-set r.now i c.now ∙ h.now;
        min = length-set r.min i c.min ∙ h.min;
        max = length-set r.max i c.max ∙ h.max;
        avg = length-set r.avg i c.avg ∙ h.avg;
      };
      inside = λ j p q.
          let e : j ≡ i = omega arith in
          rw e (λ k. record {
            now = get_or-set_self r.now i c.now (pos 0) (rw h.now below) k;
            min = get_or-set_self r.min i c.min (pos 0) (rw h.min below) k;
            max = get_or-set_self r.max i c.max (pos 0) (rw h.max below) k;
            avg = get_or-set_self r.avg i c.avg (pos 0) (rw h.avg below) k;
          });
      outside = λ j p.
          let ne : i ≢ j = omega arith in
          λ k. record {
            now = get_or-set_ne r.now i j c.now (pos 0) ne k;
            min = get_or-set_ne r.min i j c.min (pos 0) ne k;
            max = get_or-set_ne r.max i j c.max (pos 0) ne k;
            avg = get_or-set_ne r.avg i j c.avg (pos 0) ne k;
          };
    }

pub store_sample-done :
    (sample : List ℤ) (r : ModbusInput) (i : ℕ)
    → IsShaped r
    → i < adc_samples
    → length sample ≡ adc_samples
    → Fits (get_or sample i (pos 0))
    → store_sample sample i r ≡ done (put_channel r i (observe (reading sample i) (channel r i)))
unfolding store_sample
store_sample-done sample r i h below len fits =
    let v = reading sample i in
    let c = channel r i in
    rw (
      fetch-done sample i (pos 0) (rw len below),
      raw_to_milivolt_lem (get_or sample i (pos 0)) fits,
      store-done r.now i v (rw h.now below),
      fetch-done r.min i (pos 0) (rw h.min below),
      store-done r.min i (min_ℤ v c.min) (rw h.min below),
      fetch-done r.max i (pos 0) (rw h.max below),
      store-done r.max i (max_ℤ v c.max) (rw h.max below),
      fetch-done r.avg i (pos 0) (rw h.avg below),
      store-done r.avg i (ema v c.avg) (rw h.avg below),
    )

-- All four counts convert without overflow.
abbrev pub AllFit : List ℤ → Type 0
AllFit sample = (i : ℕ) → i < adc_samples → Fits (get_or sample i (pos 0))

pub store_from-IsMapped :
    (sample : List ℤ) (left i : ℕ) (r : ModbusInput)
    → IsShaped r
    → i + left ≡ adc_samples
    → length sample ≡ adc_samples
    → AllFit sample
    → (out : ModbusInput) × (store_from sample left i r ≡ done out)
      × IsMapped (λ j. observe (reading sample j)) i adc_samples r out
unfolding store_from
store_from-IsMapped sample zero i r h e len fits =
    let e' : i ≡ adc_samples = omega arith in (r, refl, rw e' (IsMapped-none _ adc_samples r h))
store_from-IsMapped sample (suc left) i r h e len fits =
    let f = λ (j : ℕ). observe (reading sample j) in
    let mid = put_channel r i (f i (channel r i)) in
    let one = put_channel-IsMapped f r i h (omega arith) in
    let (out, run, rest) =
      store_from-IsMapped sample left (i + 1) mid one.shaped (omega arith) len fits in
    let first = store_sample-done sample r i h (omega arith) len (fits i (omega arith)) in
    (out, rw first run, IsMapped-cons f i adc_samples r mid out (omega arith) one rest)

pub reset_from-IsMapped :
    (left i : ℕ) (r : ModbusInput)
    → IsShaped r
    → i + left ≡ adc_samples
    → (out : ModbusInput) × (reset_from left i r ≡ done out)
      × IsMapped (λ _. forget) i adc_samples r out
unfolding reset_from
reset_from-IsMapped zero i r h e =
    let e' : i ≡ adc_samples = omega arith in (r, refl, rw e' (IsMapped-none _ adc_samples r h))
reset_from-IsMapped (suc left) i r h e =
    let f = λ (j : ℕ). forget in
    let mid = put_channel r i (forget (channel r i)) in
    let same : set r.now i (get_or r.now i (pos 0)) ≡ r.now = set-get_or r.now i (pos 0) in
    let one = put_channel-IsMapped f r i h (omega arith) in
    let (out, run, rest) = reset_from-IsMapped left (i + 1) mid one.shaped (omega arith) in
    (
      out,
      rw
          (
            store-done r.min i int16_max (rw h.min (omega arith)),
            store-done r.max i int16_min (rw h.max (omega arith)),
            store-done r.avg i (pos 0) (rw h.avg (omega arith)),
          )
          (sym (λ k. reset_from left (i + 1) (record mid { now = same k })) ∙ run),
      IsMapped-cons f i adc_samples r mid out (omega arith) one rest,
    )
