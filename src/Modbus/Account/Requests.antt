-- ===== src/Modbus/Account/Requests.antt =====
-- What a callback leaves in the holding registers is what the account says.
use railab_nuttx_code.Prelude.{
  ℕ, zero, suc, ◌+◌, ◌-◌, ◌*◌, ◌≤◌, ◌≡◌, refl, sym, ap, ◌∙◌, true, false, List, [], ◌∷◌, ◌++◌,
  length, take, drop, get_or, done, done-injective, >>=-eq-done, leb, ltb, ◌&&◌, if◌then◌else◌,
  arith, inl, inr, ◌⊎◌,
}
use railab_nuttx_code.Modbus.State.{
  ModbusState, ModbusHolding, mutex_lock, locked, holding_words, holding_of_words,
}
use railab_nuttx_code.Modbus.Wire.{unwire, AreBytes, SwapsBytes}
use railab_nuttx_code.Modbus.Callbacks.{
  mb_reg_read, mb_reg_write, Reply, unlock_reply, input_locked, holding_locked, reg_input_cb,
  reg_holding_cb,
}
use railab_nuttx_code.Modbus.Callbacks.Invariant.{input_locked_same, holding_read_same}
use railab_nuttx_code.Modbus.Callbacks.Replies.{
  Inside, Outside, reg_holding_cb_writes, reg_holding_cb_rejects,
}
use railab_nuttx_code.Modbus.Threads.{Request, input, holding}
use railab_nuttx_code.Modbus.Serial.{callback}
use railab_nuttx_code.Modbus.Account.{after_write, after_request, IsRequest}

length-unwire : (bytes : List ℕ) (n : ℕ) → 2 * n ≤ length bytes → n ≤ length (unwire bytes)
length-unwire [] n h = omega arith
length-unwire (a ∷ []) n h = omega arith
length-unwire (hi ∷ lo ∷ bytes) zero h = omega arith
length-unwire (hi ∷ lo ∷ bytes) (suc n) h = omega (arith, length-unwire bytes n (omega arith))

-- The words of a write, put in their place.
abbrev put_words : (ws : List ℕ) (i n : ℕ) → ModbusHolding → ModbusHolding
put_words ws i n h =
    let old = holding_words h in
    holding_of_words (take i old ++ (take n ws ++ drop n (drop i old))) h

-- The same, register by register.
abbrev pick_words : (ws : List ℕ) (address n : ℕ) → ModbusHolding → ModbusHolding
pick_words ws address n h = record {
  interval =
      if leb address 31 && ltb 31 (address + n)
      then get_or ws (31 - address) h.interval
      else h.interval;
  rst_stats =
      if leb address 32 && ltb 32 (address + n)
      then get_or ws (32 - address) h.rst_stats
      else h.rst_stats;
}

put-pick_31 :
    (ws : List ℕ) (n : ℕ) (h : ModbusHolding)
    → n ≤ 2
    → n ≤ length ws
    → put_words ws 0 n h ≡ pick_words ws 31 n h
put-pick_31 ws zero h le room = refl
put-pick_31 [] (suc n) h le room = absurd (omega arith)
put-pick_31 (a ∷ ws) (suc zero) h le room = refl
put-pick_31 (a ∷ []) (suc (suc n)) h le room = absurd (omega arith)
put-pick_31 (a ∷ b ∷ ws) (suc (suc zero)) h le room = refl
put-pick_31 (a ∷ b ∷ ws) (suc (suc (suc n))) h le room = absurd (omega arith)

put-pick_32 :
    (ws : List ℕ) (n : ℕ) (h : ModbusHolding)
    → n ≤ 1
    → n ≤ length ws
    → put_words ws 1 n h ≡ pick_words ws 32 n h
put-pick_32 ws zero h le room = refl
put-pick_32 [] (suc n) h le room = absurd (omega arith)
put-pick_32 (a ∷ ws) (suc zero) h le room = refl
put-pick_32 (a ∷ ws) (suc (suc n)) h le room = absurd (omega arith)

put-pick :
    (ws : List ℕ) (address n : ℕ) (h : ModbusHolding)
    → Inside 31 2 address n
    → n ≤ length ws
    → put_words ws (address - 31) n h ≡ pick_words ws address n h
put-pick ws address n h inside room =
    let c : (address ≡ 31) ⊎ ((address ≡ 32) ⊎ ((address ≡ 33) × (n ≡ 0))) = omega arith in
    elim c [
      | inl e ↦ rw e (put-pick_31 ws n h (omega arith) room)
      | inr (inl e) ↦ rw e (put-pick_32 ws n h (omega arith) room)
      | inr (inr (e, z)) ↦ rw e
    ]

-- What a callback gives, unlocked.
unlocked_same :
    (s : ModbusState) {t : ModbusState} {a r : Reply}
    → mutex_lock s ≡ done t
    → s.lock ≡ false
    → a.state ≡ t
    → done (unlock_reply a) ≡ done r
    → r.state.holding ≡ s.holding
unlocked_same s {t} {a} {r} lock free same e =
    let lt : locked s ≡ t = done-injective _ _ (rw free at lock) in
    let er : unlock_reply a ≡ r = done-injective _ _ e in rw (← er, same, ← lt) refl

module _ (htobe16 be16toh : ℕ → ℕ) (swap_out : SwapsBytes htobe16)
    (swap_in : SwapsBytes be16toh) where
  write-after :
      (buffer : List ℕ) (address nregs : ℕ) (s : ModbusState) (r : Reply)
      → s.lock ≡ false
      → AreBytes buffer
      → 2 * nregs ≤ length buffer
      → reg_holding_cb htobe16 be16toh s buffer address nregs mb_reg_write ≡ done r
      → r.state.holding ≡ after_write buffer address nregs s.holding
  write-after buffer address nregs s r free bytes room run =
      let c : Inside 31 2 address nregs ⊎ Outside 31 2 address nregs = omega arith in
      elim c [
        | inl inside ↦
            let run' =
              reg_holding_cb_writes htobe16 be16toh swap_out swap_in s buffer address nregs free
                inside room bytes in
            let within : (leb 31 address && leb (address + nregs) 33) ≡ true = ground arith in
            let e = ap (λ (x : Reply). x.state.holding) (done-injective _ _ (sym run ∙ run')) in
            rw within (
              e
              ∙ put-pick (unwire buffer) address nregs s.holding inside
                  (length-unwire buffer nregs room))
        | inr outside ↦
            let run' =
              (reg_holding_cb_rejects htobe16 be16toh s buffer address nregs mb_reg_write free
                outside).0 in
            let beyond : (leb 31 address && leb (address + nregs) 33) ≡ false = ground arith in
            let e = ap (λ (x : Reply). x.state.holding) (done-injective _ _ (sym run ∙ run')) in
            rw beyond e
      ]

  -- Whatever the request, the holding registers behind the callback are those of the account.
  pub callback-after :
      (q : Request) (s : ModbusState) (r : Reply)
      → s.lock ≡ false
      → IsRequest q
      → callback htobe16 be16toh q s ≡ done r
      → r.state.holding ≡ after_request q s.holding
  unfolding reg_input_cb reg_holding_cb
  callback-after (input buffer address nregs) s r free k run =
      let (t, e, run) = >>=-eq-done (mutex_lock s) _ run in
      let (a, locked_run, u) = >>=-eq-done (input_locked htobe16 t buffer address nregs) _ run in
      unlocked_same s e free (input_locked_same htobe16 be16toh t buffer address nregs locked_run) u
  callback-after (holding buffer address nregs mb_reg_read) s r free k run =
      let (t, e, run) = >>=-eq-done (mutex_lock s) _ run in
      let (a, locked_run, u) =
        >>=-eq-done (holding_locked htobe16 be16toh t buffer address nregs mb_reg_read) _ run in
      unlocked_same s e free (holding_read_same htobe16 be16toh t buffer address nregs locked_run) u
  callback-after (holding buffer address nregs mb_reg_write) s r free k run =
      write-after buffer address nregs s r free k.0 k.1 run
