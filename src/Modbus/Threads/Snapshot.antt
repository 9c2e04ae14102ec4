-- ===== src/Modbus/Threads/Snapshot.antt =====
-- What holds in every state that the threads reach: mutual exclusion, consistent answers, progress.
use railab_nuttx_code.Prelude.{
  if◌then◌else◌, ℕ, ◌+◌, ◌-◌, ◌*◌, ◌≤◌, ◌<◌, ◌≡◌, ◌⊎◌, inl, inr, List, ◌++◌, ℤ, length, take, drop,
  done, arith,
}
use railab_nuttx_code.Modbus.State.{ModbusState, input_words, adc_samples}
use railab_nuttx_code.Modbus.Ready.{IsReady}
use railab_nuttx_code.Modbus.Wire.{wire, SwapsBytes}
use railab_nuttx_code.Modbus.Callbacks.{mb_enoerr}
use railab_nuttx_code.Modbus.Callbacks.Replies.{Inside, input_locked_reads}
use railab_nuttx_code.Modbus.Adc.Channels.{Channel, channel}
use railab_nuttx_code.Modbus.Threads.{
  input, AdcPc, opening, starting, waiting, serving, storing, answering, System, answer, Reach,
  created, later,
}
use railab_nuttx_code.Modbus.Threads.Invariant.{
  main_in, adc_in, modbus_in, View, Shows, IsBlank, Inv,
}
use railab_nuttx_code.Modbus.Threads.Preserve.{Step-Inv}

-- A device as `main` leaves it: valid, the mutex free, every channel zero.
pub record IsStart (s : ModbusState) : Type 0 where
  pub ready : IsReady s
  pub blank : (j : ℕ) → j < adc_samples → IsBlank (channel s.input j)

-- The channels are those of a device that never sampled, or all show the same complete samples.
abbrev pub OneHistory : System → Type 0
OneHistory s =
    ((j : ℕ) → j < adc_samples → IsBlank (channel s.device.input j))
    ⊎ ((j : ℕ) → j < adc_samples → Shows s.history j (channel s.device.input j))

-- Outside the critical sections of the ADC thread.
pub View-OneHistory :
    (p : AdcPc) (h : List (List ℤ)) (c : ℕ → Channel)
    → adc_in p ≡ 0
    → ((j : ℕ) → j < adc_samples → View p h j (c j))
    → ((j : ℕ) → j < adc_samples → IsBlank (c j)) ⊎ ((j : ℕ) → j < adc_samples → Shows h j (c j))
View-OneHistory opening h c e v = inl v
View-OneHistory starting h c e v = absurd (omega arith)
View-OneHistory waiting h c e v = inr v
View-OneHistory (serving sample) h c e v = absurd (omega arith)
View-OneHistory (storing sample i) h c e v = absurd (omega arith)

module _ (htobe16 be16toh : ℕ → ℕ) {start : ModbusState} (fresh : IsStart start) where
  pub Reach-Inv : {s : System} → Reach htobe16 be16toh start s → Inv s
  Reach-Inv created = record {
    valid = fresh.ready.valid;
    held = ground (arith, fresh.ready.free);
    sampled = tt;
    shows = fresh.blank;
  }
  Reach-Inv (later r st) = Step-Inv htobe16 be16toh st (Reach-Inv r)

  -- In every reachable state at most one of the three threads is between its lock and its unlock,
  -- and the mutex is held exactly when one is.
  pub mutual_exclusion :
      {s : System}
      → Reach htobe16 be16toh start s
      → (main_in s.main + adc_in s.adc + modbus_in s.modbus ≤ 1)
        × (main_in s.main + adc_in s.adc + modbus_in s.modbus ≡ (if s.device.lock then 1 else 0))
  mutual_exclusion {s} r = ground (arith, (Reach-Inv r).held)

  -- On a little-endian host, in every reachable state in which the Modbus thread answers a read of
  -- input registers 1 to 18 with room in the buffer, the answer holds the addressed registers in
  -- wire format, and the four channels in these registers belong to one moment: all are blank, or
  -- all show the same sequence of complete samples since the last reset.
  pub answers_are_snapshots :
      SwapsBytes htobe16
      → {s : System} {buffer : List ℕ} {address nregs : ℕ} → Reach htobe16 be16toh start s
      → s.modbus ≡ answering (input buffer address nregs)
      → Inside 1 18 address nregs
      → 2 * nregs ≤ length buffer
      → (answer htobe16 be16toh (input buffer address nregs) s.device
          ≡ done (record {
            mberr = mb_enoerr;
            buffer =
                wire (take nregs (drop (address - 1) (input_words s.device.input)))
                ++ drop (2 * nregs) buffer;
            state = s.device;
          }))
        × OneHistory s
  answers_are_snapshots swaps {s} {buffer} {address} {nregs} r at inside room =
      let inv = Reach-Inv r in
      (
        input_locked_reads htobe16 swaps s.device buffer address nregs inv.valid inside room,
        View-OneHistory s.adc s.history (λ j. channel s.device.input j)
            (ground (arith, mutual_exclusion r, at)) inv.shows,
      )
