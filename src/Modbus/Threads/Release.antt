-- ===== src/Modbus/Threads/Release.antt =====
-- The mutex is never kept: whoever holds it can go on, and comes to the unlock.
use railab_nuttx_code.Prelude.{
  ℕ, zero, suc, ◌+◌, ◌-◌, ◌*◌, ◌<◌, ◌≤◌, ◌≡◌, refl, ap, Bool, true, false, length, done, arith, inl,
  inr, ◌⊎◌, Bool-cases,
}
use mathlib.Core.Path.{subst}
use railab_nuttx_code.Modbus.State.{ModbusState, adc_samples}
use railab_nuttx_code.Modbus.Callbacks.{Reply}
use railab_nuttx_code.Modbus.Callbacks.Totals.{input_locked_total, holding_locked_total}
use railab_nuttx_code.Modbus.Adc.{adc_reset_stats}
use railab_nuttx_code.Modbus.Adc.Channels.{store_sample-done, reset_from-IsMapped}
use railab_nuttx_code.Modbus.Adc.Rounds.{serve_reset-IsServed}
use railab_nuttx_code.Modbus.Threads.{
  Request, input, holding, MainPc, asleep, counting, AdcPc, opening, starting, waiting, serving,
  storing, ModbusPc, polling, answering, System, answer, Step, main_count, modbus_reply, adc_start,
  adc_serve, adc_store, adc_unlock, Reach,
}
use railab_nuttx_code.Modbus.Threads.Invariant.{main_in, adc_in, modbus_in, Sampled, Inv}
use railab_nuttx_code.Modbus.Threads.Preserve.{Step-Inv}
use railab_nuttx_code.Modbus.Threads.Snapshot.{IsStart, Reach-Inv}

-- Room in the buffer for the registers of a request; FreeModBus gives a buffer for a whole frame.
abbrev pub Room : Request → Type 0
Room (input buffer address nregs) = 2 * nregs ≤ length buffer
Room (holding buffer address nregs mode) = 2 * nregs ≤ length buffer

abbrev pub RoomAt : ModbusPc → Type 0
RoomAt polling = Unit
RoomAt (answering q) = Room q

-- The steps that a thread has left before its unlock.
abbrev pub adc_left : AdcPc → ℕ
adc_left opening = 0
adc_left starting = 1
adc_left waiting = 0
adc_left (serving sample) = 6
adc_left (storing sample i) = 5 - i

abbrev pub left : System → ℕ
left s = main_in s.main + adc_left s.adc + modbus_in s.modbus

pub clash : {b : Bool} → b ≡ false → b ≡ true → ⊥
clash free taken = cc

module _ (htobe16 be16toh : ℕ → ℕ) where
  -- What a step of the holder gives.
  pub record Advance (s : System) : Type 0 where
    pub next : System
    pub step : Step htobe16 be16toh s next
    pub fewer : left next < left s
    pub room : RoomAt next.modbus

  pub answer_total :
      (q : Request) (s : System)
      → Inv s
      → Room q
      → (r : Reply) × (answer htobe16 be16toh q s.device ≡ done r)
  answer_total (input buffer address nregs) s k room =
      input_locked_total htobe16 be16toh s.device buffer address nregs k.valid room
  answer_total (holding buffer address nregs mode) s k room =
      holding_locked_total htobe16 be16toh s.device buffer address nregs mode room

  modbus_advances :
      (s : System) (m : ModbusPc) → Inv s → s.modbus ≡ m → RoomAt m → 1 ≤ modbus_in m → Advance s
  modbus_advances s polling k at room h = absurd (omega arith)
  modbus_advances s (answering q) k at room h =
      let (r, run) = answer_total q s k room in
      record {
        next = _;
        step = modbus_reply q r at run;
        fewer = omega (arith, ap modbus_in at);
        room = tt;
      }

  main_advances :
      (s : System) (m : MainPc) → s.main ≡ m → RoomAt s.modbus → 1 ≤ main_in m → Advance s
  main_advances s asleep at room h = absurd (omega arith)
  main_advances s counting at room h = record {
    next = _;
    step = main_count at;
    fewer = omega (arith, ap main_in at);
    room = room;
  }

  adc_advances :
      (s : System) (p : AdcPc) → Inv s → s.adc ≡ p → RoomAt s.modbus → 1 ≤ adc_in p → Advance s
  unfolding adc_reset_stats
  adc_advances s opening k at room h = absurd (omega arith)
  adc_advances s starting k at room h =
      let (out, run, m) = reset_from-IsMapped adc_samples 0 s.device.input k.valid.shaped refl in
      record {
        next = _;
        step = adc_start out at run;
        fewer = omega (arith, ap adc_left at);
        room = room;
      }
  adc_advances s waiting k at room h = absurd (omega arith)
  adc_advances s (serving sample) k at room h =
      let (out, run, served) = serve_reset-IsServed s.device k.valid.shaped in
      record {
        next = _;
        step = adc_serve sample out at run;
        fewer = omega (arith, ap adc_left at);
        room = room;
      }
  adc_advances s (storing sample i) k at room h =
      let fit = subst Sampled at k.sampled in
      let c : (i < adc_samples) ⊎ (i ≡ adc_samples) = omega (arith, fit.1) in
      elim c [
        | inl below ↦ record {
          next = _;
          step = adc_store sample i _ at below (
              store_sample-done sample s.device.input i k.valid.shaped below fit.0.0
                (fit.0.1 i below));
          fewer = omega (arith, ap adc_left at, below);
          room = room;
        }
        | inr over ↦ record {
          next = _;
          step = adc_unlock sample (rw over at at);
          fewer = omega (arith, ap adc_left at, over);
          room = room;
        }
      ]

  -- Whoever is between lock and unlock can take a step, and has then fewer left.
  pub holder_advances : (s : System) → Inv s → s.device.lock ≡ true → RoomAt s.modbus → Advance s
  holder_advances s k taken room =
      let c : (1 ≤ main_in s.main) ⊎ ((1 ≤ adc_in s.adc) ⊎ (1 ≤ modbus_in s.modbus)) =
        omega (arith, rw taken at k.held) in
      elim c [
        | inl m ↦ main_advances s s.main refl room m
        | inr (inl a) ↦ adc_advances s s.adc k refl room a
        | inr (inr b) ↦ modbus_advances s s.modbus k refl room b
      ]

  -- Steps of the threads from one state to another.
  pub data Run : System → System → Type 0 where
    here : {s : System} → Run s s
    then_run : {s t u : System} → Step htobe16 be16toh s t → Run t u → Run s u

  release :
      (n : ℕ) (s : System)
      → Inv s
      → RoomAt s.modbus
      → left s < n
      → (t : System) × Run s t × (t.device.lock ≡ false)
  release zero s k room h = absurd (omega arith)
  release (suc n) s k room h = elim (Bool-cases s.device.lock) [
    | inr free ↦ (s, here, free)
    | inl taken ↦
        let a = holder_advances s k taken room in
        let (t, run, free) =
          release n a.next (Step-Inv htobe16 be16toh a.step k) a.room (omega (arith, a.fewer)) in
        (t, then_run a.step run, free)
  ]

  -- The mutex can always be released: from every reachable state there are steps to one in which it is
  -- free, if the request that the Modbus thread answers, when it does, has room in its buffer.
  pub mutex_is_released :
      {start : ModbusState}
      → IsStart start
      → {s : System} → Reach htobe16 be16toh start s
      → RoomAt s.modbus
      → (t : System) × Run s t × (t.device.lock ≡ false)
  mutex_is_released fresh {s} r room =
      release (suc (left s)) s (Reach-Inv htobe16 be16toh fresh r) room (omega arith)
