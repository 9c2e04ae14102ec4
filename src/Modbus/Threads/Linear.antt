-- ===== src/Modbus/Threads/Linear.antt =====
-- The interleaved threads give the same replies and the same device as whole operations one after the
-- other, in the order in which the mutex is unlocked.
use railab_nuttx_code.Prelude.{
  ℕ, suc, ◌≡◌, refl, sym, ap, ◌∙◌, true, false, List, [], ◌∷◌, pos, done, arith,
}
use mathlib.Core.Path.{subst}
use railab_nuttx_code.Modbus.State.{ModbusState, locked, unlocked}
use railab_nuttx_code.Modbus.Callbacks.{Reply, unlock_reply, reg_input_cb, reg_holding_cb}
use railab_nuttx_code.Modbus.Adc.{serve_reset, store_from, thread_adc_start}
use railab_nuttx_code.Modbus.Device.{main_round}
use railab_nuttx_code.Modbus.Serial.{
  Event, counted, replied, started_adc, sampled, callback, Serial, begin, count, call, open_adc,
  convert,
}
use railab_nuttx_code.Modbus.Threads.{
  Request, input, holding, AdcPc, polling, answering, System, answer, Step, main_lock, main_count,
  modbus_lock, modbus_reply, adc_open, adc_start, adc_lock, adc_serve, adc_store, adc_unlock, Reach,
  created, later,
}
use railab_nuttx_code.Modbus.Threads.Invariant.{main_in, adc_in, modbus_in, Sampled, Inv}
use railab_nuttx_code.Modbus.Threads.Snapshot.{IsStart, Reach-Inv}
use railab_nuttx_code.Modbus.Threads.Since.{
  store_from-suc, zero_add, relocked, Since, Since-idle, idle-Since, whole_round,
}

module _ (htobe16 be16toh : ℕ → ℕ) where
  -- What an unlock completes.
  abbrev pub emitted : {s t : System} → Step htobe16 be16toh s t → List Event → List Event
  emitted (main_lock at free) es = es
  emitted (main_count at) es = counted ∷ es
  emitted (modbus_lock q at free) es = es
  emitted (modbus_reply q r at run) es = replied q (unlock_reply r) ∷ es
  emitted (adc_open at free) es = es
  emitted (adc_start r at run) es = started_adc ∷ es
  emitted (adc_lock sample at free fit) es = es
  emitted (adc_serve sample t at run) es = es
  emitted (adc_store sample i r at below run) es = es
  emitted (adc_unlock sample at) es = sampled sample ∷ es

  abbrev pub events :
      {start : ModbusState} {s : System} → Reach htobe16 be16toh start s → List Event
  events created = []
  events (later r st) = emitted st (events r)

  -- A callback from a free mutex is the answer under the lock.
  callback-answer :
      (q : Request) (s : ModbusState) (r : Reply)
      → answer htobe16 be16toh q s ≡ done r
      → s.lock ≡ true
      → callback htobe16 be16toh q (unlocked s) ≡ done (unlock_reply r)
  unfolding reg_input_cb reg_holding_cb
  callback-answer (input buffer address nregs) s r run taken = rw (relocked s taken, run)
  callback-answer (holding buffer address nregs mode) s r run taken = rw (relocked s taken, run)

  -- The device `d` that whole operations have given, and how the threads' device stands to it.
  pub record Behind (start : ModbusState) (es : List Event) (s : System) : Type 0 where
    pub d : ModbusState
    pub serial : Serial htobe16 be16toh start es d
    pub free : d.lock ≡ false
    pub since : Since s.adc d s.device

  -- Behind an event, with the ADC thread outside its critical sections.
  completed :
      {start : ModbusState} {es : List Event} (d : ModbusState) (s : System)
      → Serial htobe16 be16toh start es d
      → d.lock ≡ false
      → adc_in s.adc ≡ 0
      → unlocked s.device ≡ d
      → Behind start es s
  completed d s serial free idle e = record {
    d = d;
    serial = serial;
    free = free;
    since = idle-Since s.adc d s.device idle e;
  }

  module _ {start : ModbusState} {es : List Event} where
    Since-at : (s : System) {p : AdcPc} (b : Behind start es s) → s.adc ≡ p → Since p b.d s.device
    Since-at s b at = subst (λ p. Since p b.d s.device) at b.since

    unchanged : (s : System) (b : Behind start es s) → adc_in s.adc ≡ 0 → unlocked s.device ≡ b.d
    unchanged s b idle = Since-idle s.adc b.d s.device idle b.since

    reply-Behind :
        (s : System) (q : Request) (r : Reply)
        → Inv s
        → s.modbus ≡ answering q
        → answer htobe16 be16toh q s.device ≡ done r
        → Behind start es s
        → Behind start
            (replied q (unlock_reply r) ∷ es)
            (record s { device = unlocked r.state; modbus = polling })
    reply-Behind s q r k at run b =
        let taken : s.device.lock ≡ true = ground (arith, k.held, ap modbus_in at) in
        let idle : adc_in s.adc ≡ 0 = ground (arith, k.held, ap modbus_in at) in
        let replies = callback-answer q s.device r run taken in
        completed (unlocked r.state) _
          (call q (unlock_reply r) b.serial (rw (← unchanged s b idle) replies)) refl idle refl

    Step-Behind :
        {s t : System} (st : Step htobe16 be16toh s t)
        → Inv s
        → Behind start es s
        → Behind start (emitted st es) t
    unfolding main_round thread_adc_start store_from
    Step-Behind {s} (main_lock at free) k b =
        let idle : adc_in s.adc ≡ 0 = ground (arith, k.held) in
        completed b.d _ b.serial b.free idle (unchanged s b idle)
    Step-Behind {s} (main_count at) k b =
        let idle : adc_in s.adc ≡ 0 = ground (arith, k.held, ap main_in at) in
        completed _ _ (count b.serial (rw (← unchanged s b idle))) refl idle refl
    Step-Behind {s} (modbus_lock q at free) k b =
        let idle : adc_in s.adc ≡ 0 = ground (arith, k.held) in
        completed b.d _ b.serial b.free idle (unchanged s b idle)
    Step-Behind {s} (modbus_reply q r at run) k b = reply-Behind s q r k at run b
    Step-Behind {s} (adc_open at free) k b = record {
      d = b.d;
      serial = b.serial;
      free = b.free;
      since = Since-at s b at;
    }
    Step-Behind {s} (adc_start r at run) k b =
        let e = Since-at s b at in
        completed _ _ (open_adc (pos 0) b.serial (rw (← e, run))) refl refl refl
    Step-Behind {s} (adc_lock sample at free fit) k b = record {
      d = b.d;
      serial = b.serial;
      free = b.free;
      since = Since-at s b at;
    }
    Step-Behind {s} (adc_serve sample t at run) k b =
        let taken : s.device.lock ≡ true = ground (arith, k.held, ap adc_in at) in
        let serve : serve_reset (locked b.d) ≡ done t =
          rw (← Since-at s b at, relocked s.device taken) run in
        record { d = b.d; serial = b.serial; free = b.free; since = (t, serve, refl, refl) }
    Step-Behind {s} (adc_store sample i r at below run) k b =
        let (t, serve, stored, same) = Since-at s b at in
        let more : store_from sample (suc i) 0 t.input ≡ done r =
          store_from-suc sample i 0 t.input ∙ rw (stored, zero_add i) run in
        record { d = b.d; serial = b.serial; free = b.free; since = (t, serve, more, same) }
    Step-Behind {s} (adc_unlock sample at) k b =
        let (t, serve, stored, same) = Since-at s b at in
        let fit = subst Sampled at k.sampled in
        let whole = whole_round sample b.d t s.device b.free serve stored same in
        completed _ _ (convert (pos 0) (pos 0) sample _ b.serial fit.0 whole) refl refl refl

  pub Reach-Behind :
      {start : ModbusState}
      → IsStart start
      → {s : System} (r : Reach htobe16 be16toh start s) → Behind start (events r) s
  Reach-Behind {start} fresh created =
      let free = fresh.ready.free in
      record { d = start; serial = begin; free = free; since = rw free }
  Reach-Behind fresh (later r st) =
      Step-Behind st (Reach-Inv htobe16 be16toh fresh r) (Reach-Behind fresh r)

  -- From a valid device with the mutex free and every channel zero, over samples of four counts whose
  -- conversion fits `int`, and whatever the order in which the threads take their steps: in every
  -- reachable state in which the mutex is free the device is the one that whole operations give, one after the other, in the order
  -- of the unlocks: the counts of `main`, the callbacks with the very replies that the Modbus thread
  -- gave, the start of the ADC thread and its rounds with their samples.
  pub threads_are_sequential :
      {start : ModbusState}
      → IsStart start
      → {s : System} (r : Reach htobe16 be16toh start s) → s.device.lock ≡ false
      → Serial htobe16 be16toh start (events r) s.device
  threads_are_sequential {start} fresh {s} r free =
      let b = Reach-Behind fresh r in
      let idle : adc_in s.adc ≡ 0 = ground (arith, (Reach-Inv htobe16 be16toh fresh r).held) in
      let same : s.device ≡ b.d = rw (← unchanged s b idle, free) in
      subst (Serial htobe16 be16toh start (events r)) (sym same) b.serial
