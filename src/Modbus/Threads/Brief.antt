-- ===== src/Modbus/Threads/Brief.antt =====
-- How long the mutex can be held.
use railab_nuttx_code.Prelude.{
  ℕ, suc, ◌+◌, ◌*◌, ◌<◌, ◌≤◌, ◌≡◌, ap, true, false, arith, inl, inr, ◌⊎◌, Bool-cases,
}
use railab_nuttx_code.Modbus.State.{ModbusState}
use railab_nuttx_code.Modbus.Threads.{
  AdcPc, opening, starting, waiting, serving, storing, System, Step, main_lock, main_count,
  modbus_lock, adc_open, adc_lock, modbus_reply, adc_start, adc_serve, adc_store, adc_unlock, Reach,
  later,
}
use railab_nuttx_code.Modbus.Threads.Invariant.{main_in, adc_in, modbus_in, Inv}
use railab_nuttx_code.Modbus.Threads.Snapshot.{IsStart, Reach-Inv}
use railab_nuttx_code.Modbus.Threads.Release.{RoomAt, adc_left, left, clash, holder_advances}

adc_left_bound : (p : AdcPc) → adc_left p ≤ 6 * adc_in p
adc_left_bound opening = omega arith
adc_left_bound starting = omega arith
adc_left_bound waiting = omega arith
adc_left_bound (serving sample) = omega arith
adc_left_bound (storing sample i) = omega arith

module _ (htobe16 be16toh : ℕ → ℕ) where
  -- Steps of the threads with their number, each from a state in which the mutex is held.
  pub data Held (s : System) : ℕ → System → Type 0 where
    here : Held s 0 s
    further :
        {t u : System} {n : ℕ}
        → Held s n t
        → t.device.lock ≡ true
        → Step htobe16 be16toh t u
        → Held s (suc n) u

  -- While the mutex is held, every step of the threads leaves fewer steps before the unlock.
  held_steps_fewer :
      {s t : System} → Step htobe16 be16toh s t → s.device.lock ≡ true → left t < left s
  held_steps_fewer (main_lock at free) taken = absurd (clash free taken)
  held_steps_fewer (main_count at) taken = omega (arith, ap main_in at)
  held_steps_fewer (modbus_lock q at free) taken = absurd (clash free taken)
  held_steps_fewer (modbus_reply q r at run) taken = omega (arith, ap modbus_in at)
  held_steps_fewer (adc_open at free) taken = absurd (clash free taken)
  held_steps_fewer (adc_start r at run) taken = omega (arith, ap adc_left at)
  held_steps_fewer (adc_lock sample at free fit) taken = absurd (clash free taken)
  held_steps_fewer (adc_serve sample t at run) taken = omega (arith, ap adc_left at)
  held_steps_fewer (adc_store sample i r at below run) taken = omega (arith, ap adc_left at, below)
  held_steps_fewer (adc_unlock sample at) taken = omega (arith, ap adc_left at)

  Held-left : {s t : System} {n : ℕ} → Held s n t → n + left t ≤ left s
  Held-left here = omega arith
  Held-left (further h taken st) = omega (arith, Held-left h, held_steps_fewer st taken)

  Held-Reach :
      {start : ModbusState} {s t : System} {n : ℕ}
      → Reach htobe16 be16toh start s
      → Held s n t
      → Reach htobe16 be16toh start t
  Held-Reach r here = r
  Held-Reach r (further h taken st) = later (Held-Reach r h) st

  left_bound : (s : System) → Inv s → left s ≤ 6
  left_bound s k = let held = k.held in let a = adc_left_bound s.adc in ground arith

  -- The mutex is held for at most 6 steps at a time, in whatever order the threads take them: in
  -- every reachable state from which `n` steps are taken with the mutex held, `n` is at most 6, and after
  -- them the mutex is free or a further step can be taken, if the request that the Modbus thread
  -- answers, when it does, has room in its buffer.
  pub mutex_held_briefly :
      {start : ModbusState}
      → IsStart start
      → {s t : System} {n : ℕ} → Reach htobe16 be16toh start s
      → Held s n t
      → RoomAt t.modbus
      → (n ≤ 6) × ((t.device.lock ≡ false) ⊎ ((u : System) × Held s (suc n) u))
  mutex_held_briefly fresh {s} {t} r h room =
      let k = Reach-Inv htobe16 be16toh fresh r in
      let l = Reach-Inv htobe16 be16toh fresh (Held-Reach r h) in
      (
        omega (arith, Held-left h, left_bound s k),
        elim (Bool-cases t.device.lock) [
          | inl taken ↦
              let a = holder_advances htobe16 be16toh t l taken room in
              inr (a.next, further h taken a.step)
          | inr free ↦ inl free
        ],
      )
