-- ===== src/Modbus/Account/Answers.antt =====
-- What a master reads is what the account says.
use railab_nuttx_code.Prelude.{
  ℕ, ◌-◌, ◌*◌, ◌≤◌, ◌≡◌, refl, sym, ap, ◌∙◌, false, List, ◌∷◌, ◌++◌, ℤ, pos, length, take, drop,
  done, done-injective,
}
use mathlib.Core.Path.{subst}
use railab_nuttx_code.Modbus.State.{ModbusState, IsShaped, input_words, holding_words}
use railab_nuttx_code.Modbus.Wire.{wire, SwapsBytes}
use railab_nuttx_code.Modbus.Callbacks.{mb_reg_read, mb_reg_write, mb_enoerr, Reply}
use railab_nuttx_code.Modbus.Callbacks.Replies.{
  Inside, reg_input_cb_reads, reg_holding_cb_reads, reg_holding_cb_writes,
}
use railab_nuttx_code.Modbus.Device.{Config, main_start}
use railab_nuttx_code.Modbus.Threads.{Request, input, holding, System, Reach}
use railab_nuttx_code.Modbus.Threads.Start.{main_start-IsStart}
use railab_nuttx_code.Modbus.Threads.Linear.{events, threads_are_sequential}
use railab_nuttx_code.Modbus.Serial.{Event, replied, callback, Serial, call}
use railab_nuttx_code.Modbus.Account.{Account, account, AreRequests, IsRequest}
use railab_nuttx_code.Modbus.Account.Registers.{Tells, Serial-Tells}
use railab_nuttx_code.Modbus.Account.Told.{Displays, device-Tells, registers_are_told}

-- The request addresses registers that there are, and its buffer has room for them.
abbrev pub Addressed : Request → Type 0
Addressed (input buffer address nregs) = Inside 1 18 address nregs × (2 * nregs ≤ length buffer)
Addressed (holding buffer address nregs mode) =
    Inside 31 2 address nregs × (2 * nregs ≤ length buffer)

-- The contents of a reply: the addressed registers of the account in wire format, in front of the rest
-- of the buffer. Input registers are those of a structure with arrays of four channels, and of the
-- account's counter, status and channels.
abbrev pub Contents : Account → Request → List ℕ → Type 0
Contents a (input buffer address nregs) out =
    (s : ModbusState) × (out
      ≡ wire (take nregs (drop (address - 1) (input_words s.input))) ++ drop (2 * nregs) buffer)
    × (s.input.cntr ≡ a.cntr)
    × (s.input.status ≡ a.status)
    × IsShaped s.input
    × Displays a s
Contents a (holding buffer address nregs mb_reg_read) out =
    out
    ≡ wire (take nregs (drop (address - 31) (holding_words a.holding))) ++ drop (2 * nregs) buffer
Contents a (holding buffer address nregs mb_reg_write) out = out ≡ buffer

module _ (htobe16 be16toh : ℕ → ℕ) where
  -- The last whole operation, when it was a reply.
  record LastCall (start : ModbusState) (es : List Event) (q : Request) (r : Reply)
      (s : ModbusState) : Type 0 where
    pub before : ModbusState
    pub serial : Serial htobe16 be16toh start es before
    pub run : callback htobe16 be16toh q before ≡ done r
    pub same : r.state ≡ s

  last_call :
      {start : ModbusState} {es : List Event} (q : Request) (r : Reply) (s : ModbusState)
      → Serial htobe16 be16toh start (replied q r ∷ es) s
      → LastCall start es q r s
  last_call q r s (call _ _ p run) = record { before = _; serial = p; run = run; same = refl }

module _ (htobe16 be16toh : ℕ → ℕ) (swap_out : SwapsBytes htobe16)
    (swap_in : SwapsBytes be16toh) where
  -- A callback's reply, given the account of the device that it finds; `s` is what it leaves.
  reply-Contents :
      (q : Request) (r : Reply) (a : Account) (d s : ModbusState)
      → Tells a d
      → Displays a s
      → IsRequest q
      → Addressed q
      → callback htobe16 be16toh q d ≡ done r
      → r.state ≡ s
      → (r.mberr ≡ mb_enoerr) × Contents a q r.buffer
  reply-Contents (input buffer address nregs) r a d s k shows fit (inside, room) run same =
      let run' =
        reg_input_cb_reads htobe16 swap_out d buffer address nregs k.ready.valid k.ready.free inside
          room in
      let e = done-injective _ _ (sym run ∙ run') in
      let kept : s ≡ d = sym same ∙ ap (λ (x : Reply). x.state) e in
      (
        ap (λ (x : Reply). x.mberr) e,
        (
          d,
          ap (λ (x : Reply). x.buffer) e,
          k.cntr,
          k.status,
          k.ready.valid.shaped,
          subst (Displays a) kept shows,
        ),
      )
  reply-Contents (holding buffer address nregs mb_reg_read) r a d s k shows fit (inside, room) run
        same =
      let run' =
        reg_holding_cb_reads htobe16 be16toh swap_out swap_in d buffer address nregs k.ready.valid
          k.ready.free inside room in
      let e = done-injective _ _ (sym run ∙ run') in
      (ap (λ (x : Reply). x.mberr) e, rw (← k.holding) (ap (λ (x : Reply). x.buffer) e))
  reply-Contents (holding buffer address nregs mb_reg_write) r a d s k shows fit (inside, room) run
        same =
      let run' =
        reg_holding_cb_writes htobe16 be16toh swap_out swap_in d buffer address nregs k.ready.free
          inside room fit.0 in
      let e = done-injective _ _ (sym run ∙ run') in
      (ap (λ (x : Reply). x.mberr) e, ap (λ (x : Reply). x.buffer) e)

  -- On a little-endian host, with the mutex initialised, whatever the creation of the threads returns,
  -- over samples of four counts whose conversion fits `int`, and in whatever order the threads take their
  -- steps: if every request to write came in an array of bytes with room for its registers, and the last
  -- event in a reachable state with the mutex free is the reply to a request that addresses existing
  -- registers with room in its buffer, then the reply is MB_ENOERR, and its buffer is as the account of
  -- the events before it says: for a read of holding registers the addressed words of the account in
  -- wire format; for a read of input registers the addressed words of the account's status and counter and
  -- of four channels, which are all blank if the ADC thread had not started, and otherwise summarise
  -- exactly the samples since the last reset (or hold the statistics of a reset, and any reading, if there
  -- is none); for a write what the request held.
  pub replies_are_told :
      (c : Config) (create_modbus create_adc : ℤ) (q : Request) (reply : Reply) (es : List Event)
      {s : System} (r : Reach htobe16 be16toh (main_start c (pos 0) create_modbus create_adc).0 s)
      → AreRequests (events htobe16 be16toh r)
      → s.device.lock ≡ false
      → events htobe16 be16toh r ≡ replied q reply ∷ es
      → Addressed q
      → (reply.mberr ≡ mb_enoerr) × Contents (account es) q reply.buffer
  replies_are_told c create_modbus create_adc q reply es {s} r fit free latest addressed =
      let fresh = main_start-IsStart c create_modbus create_adc in
      let start = (main_start c (pos 0) create_modbus create_adc).0 in
      let run = threads_are_sequential htobe16 be16toh fresh r free in
      let l =
        last_call htobe16 be16toh q reply s.device
          (subst (λ l. Serial htobe16 be16toh start l s.device) latest run) in
      let fits = subst AreRequests latest fit in
      let tells =
        Serial-Tells htobe16 be16toh swap_out swap_in
          (device-Tells htobe16 be16toh swap_out swap_in c create_modbus create_adc) fits.1
          l.serial in
      let (_, _, _, shows) =
        registers_are_told htobe16 be16toh swap_out swap_in c create_modbus create_adc r fit free in
      reply-Contents q reply (account es) l.before s.device tells
        (subst (λ l. Displays (account l) s.device) latest shows) fits.0 addressed l.run l.same
