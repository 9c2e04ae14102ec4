-- ===== src/Modbus/Threads/Progress.antt =====
-- A master is never shut out: the Modbus thread can come to the reply to any request.
use railab_nuttx_code.Prelude.{ℕ, ◌≡◌, refl, done, arith}
use railab_nuttx_code.Modbus.State.{ModbusState, locked, unlocked}
use railab_nuttx_code.Modbus.Callbacks.{Reply}
use railab_nuttx_code.Modbus.Threads.{
  Request, ModbusPc, polling, answering, System, answer, Step, modbus_lock, modbus_reply, Reach,
}
use railab_nuttx_code.Modbus.Threads.Invariant.{modbus_in, Inv}
use railab_nuttx_code.Modbus.Threads.Preserve.{Step-Inv}
use railab_nuttx_code.Modbus.Threads.Snapshot.{IsStart, Reach-Inv}
use railab_nuttx_code.Modbus.Threads.Release.{
  Room, Run, here, then_run, answer_total, mutex_is_released,
}

outside-polling : (m : ModbusPc) → modbus_in m ≡ 0 → m ≡ polling
outside-polling polling e = refl
outside-polling (answering q) e = absurd (omega arith)

module _ (htobe16 be16toh : ℕ → ℕ) where
  Run-Inv : {s t : System} → Run htobe16 be16toh s t → Inv s → Inv t
  Run-Inv here k = k
  Run-Inv (then_run st run) k = Run-Inv run (Step-Inv htobe16 be16toh st k)

  Run-snoc :
      {s t u : System}
      → Run htobe16 be16toh s t
      → Step htobe16 be16toh t u
      → Run htobe16 be16toh s u
  Run-snoc here st = then_run st here
  Run-snoc (then_run before run) st = then_run before (Run-snoc run st)

  -- From every reachable state in which the Modbus thread polls, and for every request with room in its
  -- buffer, there are steps to a state in which the thread answers this request, its callback returns,
  -- and the unlock can follow.
  pub requests_can_be_answered :
      {start : ModbusState}
      → IsStart start
      → {s : System} → Reach htobe16 be16toh start s
      → s.modbus ≡ polling
      → (q : Request) → Room q
      → (t : System) × (r : Reply) × Run htobe16 be16toh s t
        × (t.modbus ≡ answering q)
        × (answer htobe16 be16toh q t.device ≡ done r)
        × Step htobe16 be16toh t (record t { device = unlocked r.state; modbus = polling })
  requests_can_be_answered fresh {s} reach at q room =
      let inv = Reach-Inv htobe16 be16toh fresh reach in
      let (t, run, free) = mutex_is_released htobe16 be16toh fresh reach (rw at tt) in
      let k = Run-Inv run inv in
      let idle = outside-polling t.modbus (ground (arith, k.held, free)) in
      let st = modbus_lock q idle free in
      let u = record t { device = locked t.device; modbus = answering q } in
      let (r, answers) = answer_total htobe16 be16toh q u (Step-Inv htobe16 be16toh st k) room in
      (u, r, Run-snoc run st, refl, answers, modbus_reply q r refl answers)
