-- ===== src/Modbus/Account/Told.antt =====
-- The interleaved threads against the account.
use railab_nuttx_code.Prelude.{
  ℕ, ◌<◌, ◌≡◌, refl, sym, ap, ◌∙◌, false, ◌⊎◌, inl, inr, List, [], ◌∷◌, ℤ, pos, arith, ◌==◌,
  if◌then◌else◌,
}
use mathlib.Core.Path.{subst}
use railab_nuttx_code.Modbus.State.{ModbusState, adc_samples}
use railab_nuttx_code.Modbus.Wire.{SwapsBytes}
use railab_nuttx_code.Modbus.Adc.Channels.{channel}
use railab_nuttx_code.Modbus.Device.{Config, main_start}
use railab_nuttx_code.Modbus.Threads.{
  AdcPc, opening, starting, waiting, serving, storing, System, Step, main_lock, main_count,
  modbus_lock, modbus_reply, adc_open, adc_start, adc_lock, adc_serve, adc_store, adc_unlock, Reach,
  created, later,
}
use railab_nuttx_code.Modbus.Threads.Invariant.{adc_in, modbus_in, Inv, IsBlank, Shows, View}
use railab_nuttx_code.Modbus.Threads.Snapshot.{Reach-Inv}
use railab_nuttx_code.Modbus.Threads.Start.{main_start-IsStart}
use railab_nuttx_code.Modbus.Threads.Linear.{events, emitted, Reach-Behind, threads_are_sequential}
use railab_nuttx_code.Modbus.Threads.Since.{Since}
use railab_nuttx_code.Modbus.Serial.{Event, counted}
use railab_nuttx_code.Modbus.Account.{Account, told, account, powered, AreRequests}
use railab_nuttx_code.Modbus.Account.Registers.{Tells, Serial-Tells}

-- The samples that the channels show, against the account behind the last unlock.
abbrev Phase : AdcPc → Account → List (List ℤ) → Type 0
Phase opening a h = a.status ≡ 0
Phase starting a h = a.status ≡ 0
Phase waiting a h = (a.status ≡ 1) × (h ≡ a.history)
Phase (serving _) a h = (a.status ≡ 1) × (h ≡ a.history)
Phase (storing _ _) a h =
    (a.status ≡ 1) × (h ≡ (if a.holding.rst_stats == 0 then a.history else []))

Phase-counted :
    (p : AdcPc) (a : Account) (h : List (List ℤ)) → Phase p a h → Phase p (told counted a) h
Phase-counted opening a h k = k
Phase-counted starting a h k = k
Phase-counted waiting a h k = k
Phase-counted (serving _) a h k = k
Phase-counted (storing _ _) a h k = k

-- The request to reset may change only while no sample is stored.
Phase-replied :
    (p : AdcPc) (a b : Account) (h : List (List ℤ))
    → adc_in p ≡ 0
    → b.status ≡ a.status
    → b.history ≡ a.history
    → Phase p a h
    → Phase p b h
Phase-replied opening a b h idle st hi k = st ∙ k
Phase-replied starting a b h idle st hi k = absurd (omega arith)
Phase-replied waiting a b h idle st hi k = (st ∙ k.0, k.1 ∙ sym hi)
Phase-replied (serving sample) a b h idle st hi k = absurd (omega arith)
Phase-replied (storing sample i) a b h idle st hi k = absurd (omega arith)

-- Every channel is blank and the ADC thread has not started, or every channel shows the samples of the
-- account.
abbrev pub Displays : Account → ModbusState → Type 0
Displays a s =
    ((a.status ≡ 0) × ((j : ℕ) → j < adc_samples → IsBlank (channel s.input j)))
    ⊎ ((a.status ≡ 1) × ((j : ℕ) → j < adc_samples → Shows a.history j (channel s.input j)))

Phase-Displays :
    (p : AdcPc) (a : Account) (h : List (List ℤ)) (s : ModbusState)
    → adc_in p ≡ 0
    → Phase p a h
    → ((j : ℕ) → j < adc_samples → View p h j (channel s.input j))
    → Displays a s
Phase-Displays opening a h s idle k v = inl (k, v)
Phase-Displays starting a h s idle k v = absurd (omega arith)
Phase-Displays waiting a h s idle k v =
    inr (k.0, λ j p. subst (λ x. Shows x j (channel s.input j)) k.1 (v j p))
Phase-Displays (serving sample) a h s idle k v = absurd (omega arith)
Phase-Displays (storing sample i) a h s idle k v = absurd (omega arith)

module _ (htobe16 be16toh : ℕ → ℕ) where
  earlier :
      {s t : System} (st : Step htobe16 be16toh s t) (es : List Event)
      → AreRequests (emitted htobe16 be16toh st es)
      → AreRequests es
  earlier (main_lock at free) es k = k
  earlier (main_count at) es k = k
  earlier (modbus_lock q at free) es k = k
  earlier (modbus_reply q r at run) es k = k.1
  earlier (adc_open at free) es k = k
  earlier (adc_start r at run) es k = k
  earlier (adc_lock sample at free fit) es k = k
  earlier (adc_serve sample t at run) es k = k
  earlier (adc_store sample i r at below run) es k = k
  earlier (adc_unlock sample at) es k = k

  Phase-at :
      (s : System) {p : AdcPc} (a : Account)
      → s.adc ≡ p
      → Phase s.adc a s.history
      → Phase p a s.history
  Phase-at s a at k = subst (λ p. Phase p a s.history) at k

  -- A step keeps the phase, if the request that the ADC thread serves is that of the account.
  Step-Phase :
      {s t : System} (st : Step htobe16 be16toh s t) (es : List Event)
      → Inv s
      → ((sample : List ℤ) → s.adc ≡ serving sample → s.device.holding ≡ (account es).holding)
      → Phase s.adc (account es) s.history
      → Phase t.adc (account (emitted htobe16 be16toh st es)) t.history
  Step-Phase (main_lock at free) es k served p = p
  Step-Phase {s} (main_count at) es k served p = Phase-counted s.adc (account es) s.history p
  Step-Phase (modbus_lock q at free) es k served p = p
  Step-Phase {s} (modbus_reply q r at run) es k served p =
      Phase-replied s.adc (account es) _ s.history (ground (arith, k.held, ap modbus_in at)) refl
        refl p
  Step-Phase {s} (adc_open at free) es k served p = Phase-at s (account es) at p
  Step-Phase (adc_start r at run) es k served p = (refl, refl)
  Step-Phase {s} (adc_lock sample at free fit) es k served p = Phase-at s (account es) at p
  Step-Phase {s} (adc_serve sample t at run) es k served p =
      let (st, hi) = Phase-at s (account es) at p in
      let same = served sample at in (st, rw (same, hi))
  Step-Phase {s} (adc_store sample i r at below run) es k served p = Phase-at s (account es) at p
  Step-Phase {s} (adc_unlock sample at) es k served p =
      let (st, hi) = Phase-at s (account es) at p in (st, ap (λ h. sample ∷ h) hi)

  module _ (swap_out : SwapsBytes htobe16) (swap_in : SwapsBytes be16toh) (c : Config)
      (create_modbus create_adc : ℤ) where
    -- The device as `main` leaves it, once the mutex is initialised.
    abbrev pub device : ModbusState
    device = (main_start c (pos 0) create_modbus create_adc).0

    pub device-Tells : Tells powered device
    unfolding main_start
    device-Tells = record {
      ready = (main_start-IsStart c create_modbus create_adc).ready;
      cntr = refl;
      status = refl;
      holding = refl;
    }

    Reach-Phase :
        {s : System} (r : Reach htobe16 be16toh device s)
        → AreRequests (events htobe16 be16toh r)
        → Phase s.adc (account (events htobe16 be16toh r)) s.history
    Reach-Phase created fit = refl
    Reach-Phase (later {s} r st) fit =
        let fresh = main_start-IsStart c create_modbus create_adc in
        let es = events htobe16 be16toh r in
        let fit = earlier st es fit in
        let b = Reach-Behind htobe16 be16toh fresh r in
        let tells = Serial-Tells htobe16 be16toh swap_out swap_in device-Tells fit b.serial in
        Step-Phase st es (Reach-Inv htobe16 be16toh fresh r)
          (λ sample at.
            ap (λ (x : ModbusState). x.holding) (subst (λ p. Since p b.d s.device) at b.since)
            ∙ tells.holding)
          (Reach-Phase r fit)

    -- On a little-endian host, with the mutex initialised, whatever the creation of the threads
    -- returns, over samples of four counts whose conversion fits `int`, and in whatever order the threads
    -- take their steps: if every request to write came in an array
    -- of bytes with room for its registers, then in every reachable state with the mutex free the
    -- registers are those of the account kept from the events alone. The counter, the status and the
    -- holding registers are equal to it; and either the ADC thread has not started and every channel
    -- is blank, or it has, and every channel summarises exactly the samples since the last reset.
    pub registers_are_told :
        {s : System} (r : Reach htobe16 be16toh device s)
        → AreRequests (events htobe16 be16toh r)
        → s.device.lock ≡ false
        → let a = account (events htobe16 be16toh r) in
          (s.device.input.cntr ≡ a.cntr)
          × (s.device.input.status ≡ a.status)
          × (s.device.holding ≡ a.holding)
          × Displays a s.device
    registers_are_told {s} r fit free =
        let fresh = main_start-IsStart c create_modbus create_adc in
        let es = events htobe16 be16toh r in
        let inv = Reach-Inv htobe16 be16toh fresh r in
        let idle : adc_in s.adc ≡ 0 = ground (arith, inv.held) in
        let run = threads_are_sequential htobe16 be16toh fresh r free in
        let k = Serial-Tells htobe16 be16toh swap_out swap_in device-Tells fit run in
        (
          k.cntr,
          k.status,
          k.holding,
          Phase-Displays s.adc (account es) s.history s.device idle (Reach-Phase r fit) inv.shows,
        )
