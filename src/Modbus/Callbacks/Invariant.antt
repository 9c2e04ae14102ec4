-- ===== src/Modbus/Callbacks/Invariant.antt =====
-- What every register callback that returns keeps: the state's invariant and the free mutex.
use railab_nuttx_code.Prelude.{
  ℕ, zero, suc, ◌+◌, ◌<◌, ◌^◌, ◌≡◌, refl, sym, ap, ◌∙◌, List, [], ◌∷◌, length, length-set, All-set,
  done, done-injective, >>=-eq-done, done-injective, fetch, store, store-eq-done, bit_or, u16,
  ◌<<<◌, arith, Bool-cases, inl, inr, ◌-◌,
}
use mathlib.Core.Path.{subst}
use railab_nuttx_code.Modbus.Wire.{AreWords}
use railab_nuttx_code.Modbus.State.{
  ModbusState, IsValid, mutex_lock, holding_words, holding_of_words, input_words,
}
use railab_nuttx_code.Modbus.Ready.{IsReady, unlock-IsReady, mutex_lock-IsValid, mutex_lock-input}
use railab_nuttx_code.Modbus.Callbacks.{
  MbRegisterMode, mb_reg_read, mb_reg_write, Reply, in_window, read_regs, write_regs, input_locked,
  holding_locked, unlock_reply, reg_input_cb, holding_access, reg_holding_cb,
}
use railab_nuttx_code.Modbus.Callbacks.Views.{holding_words-AreWords}

-- An array of as many words.
record WordsLike (old new : List ℕ) : Type 0 where
  words : AreWords new
  same_length : length new ≡ length old

WordsLike-store :
    (xs : List ℕ) (i v : ℕ) {ys : List ℕ}
    → store xs i (u16 v) ≡ done ys
    → AreWords xs
    → WordsLike xs ys
WordsLike-store xs i v {ys} h w = record {
  words =
      rw (store-eq-done xs i (u16 v) h)
        (All-set (λ (x : ℕ). x < 2 ^ 16) xs i (u16 v) w (omega arith));
  same_length = rw (store-eq-done xs i (u16 v) h) (length-set xs i (u16 v));
}

module _ (be16toh : ℕ → ℕ) where
  write_regs-WordsLike :
      (n : ℕ) (ptr : List ℕ) (i : ℕ) (buffer : List ℕ) (p : ℕ) {out : List ℕ}
      → write_regs be16toh n ptr i buffer p ≡ done out
      → AreWords ptr
      → WordsLike ptr out
  unfolding write_regs
  write_regs-WordsLike zero ptr i buffer p h w = record {
    words = ground arith;
    same_length = ground arith;
  }
  write_regs-WordsLike (suc n) ptr i buffer p h w =
      let (hi, _, h) = >>=-eq-done (fetch buffer p) _ h in
      let (ptr1, e1, h) = >>=-eq-done (store ptr i (u16 (be16toh hi))) _ h in
      let (lo, _, h) = >>=-eq-done (fetch buffer (p + 1)) _ h in
      let (reg, _, h) = >>=-eq-done (fetch ptr1 i) _ h in
      let (ptr2, e2, h) = >>=-eq-done (store ptr1 i (u16 (bit_or reg (be16toh (lo <<< 8))))) _ h in
      let k1 = WordsLike-store ptr i (be16toh hi) e1 w in
      let k2 = WordsLike-store ptr1 i (bit_or reg (be16toh (lo <<< 8))) e2 k1.words in
      let k = write_regs-WordsLike n ptr2 (i + 1) buffer (p + 2) h k2.words in
      record { words = k.words; same_length = k.same_length ∙ (k2.same_length ∙ k1.same_length) }

-- Words of holding registers are the registers, and a valid state's registers are words.
written-IsValid :
    (s : ModbusState) (ws : List ℕ)
    → IsValid s
    → WordsLike (holding_words s.holding) ws
    → IsValid (record s { holding = holding_of_words ws s.holding })
written-IsValid s [] v k = v
written-IsValid s (a ∷ []) v k = v
written-IsValid s (a ∷ b ∷ ws) v k = record {
  status = v.status;
  cntr = v.cntr;
  interval = k.words.0;
  rst_stats = k.words.1.0;
  shaped = v.shaped;
}

-- A reply that leaves a valid state, the mutex as it was, and the input registers alone.
pub record KeepsState (s : ModbusState) (r : Reply) : Type 0 where
  pub valid : IsValid r.state
  pub lock : r.state.lock ≡ s.lock
  pub input : r.state.input ≡ s.input

done-KeepsState :
    (s : ModbusState) (a : Reply) {r : Reply} → done a ≡ done r → KeepsState s a → KeepsState s r
done-KeepsState s a {r} e k = subst (KeepsState s) {x = a} {y = r} (ground arith) k

same-KeepsState : (s : ModbusState) (r : Reply) → IsValid s → r.state ≡ s → KeepsState s r
same-KeepsState s r v e = record { valid = rw e v; lock = rw e; input = rw e }

module _ (htobe16 be16toh : ℕ → ℕ) where
  pub input_locked-KeepsState :
      (s : ModbusState) (buffer : List ℕ) (address nregs : ℕ) {r : Reply}
      → IsValid s
      → input_locked htobe16 s buffer address nregs ≡ done r
      → KeepsState s r
  unfolding input_locked
  input_locked-KeepsState s buffer address nregs v h =
      elim (Bool-cases (in_window 1 18 address nregs)) [
        | inl within ↦
            let (_, _, e) =
              >>=-eq-done (read_regs htobe16 nregs (input_words s.input) (address - 1) buffer 0) _
                (rw within at h) in
            done-KeepsState s _ e (same-KeepsState s _ v refl)
        | inr beyond ↦ done-KeepsState s _ (rw beyond at h) (same-KeepsState s _ v refl)
      ]

  holding_access-KeepsState :
      (s : ModbusState) (buffer : List ℕ) (i nregs : ℕ) (mode : MbRegisterMode) {r : Reply}
      → IsValid s
      → holding_access htobe16 be16toh s buffer i nregs mode ≡ done r
      → KeepsState s r
  unfolding holding_access
  holding_access-KeepsState s buffer i nregs mb_reg_read v h =
      let (_, _, e) =
        >>=-eq-done (read_regs htobe16 nregs (holding_words s.holding) i buffer 0) _ h in
      done-KeepsState s _ e (same-KeepsState s _ v refl)
  holding_access-KeepsState s buffer i nregs mb_reg_write v h =
      let (ws, w, e) =
        >>=-eq-done (write_regs be16toh nregs (holding_words s.holding) i buffer 0) _ h in
      let k = write_regs-WordsLike be16toh nregs _ i buffer 0 w (holding_words-AreWords s v) in
      done-KeepsState s _ e (record { valid = written-IsValid s ws v k; lock = refl; input = refl })

  pub holding_locked-KeepsState :
      (s : ModbusState) (buffer : List ℕ) (address nregs : ℕ) (mode : MbRegisterMode) {r : Reply}
      → IsValid s
      → holding_locked htobe16 be16toh s buffer address nregs mode ≡ done r
      → KeepsState s r
  unfolding holding_locked
  holding_locked-KeepsState s buffer address nregs mode v h =
      elim (Bool-cases (in_window 31 2 address nregs)) [
        | inl within ↦
            holding_access-KeepsState s buffer (address - 31) nregs mode v (rw within at h)
        | inr beyond ↦ done-KeepsState s _ (rw beyond at h) (same-KeepsState s _ v refl)
      ]

  -- Who does not write does not change the state.
  pub input_locked_same :
      (s : ModbusState) (buffer : List ℕ) (address nregs : ℕ) {r : Reply}
      → input_locked htobe16 s buffer address nregs ≡ done r
      → r.state ≡ s
  unfolding input_locked
  input_locked_same s buffer address nregs h = elim (Bool-cases (in_window 1 18 address nregs)) [
    | inl within ↦
        let (_, _, e) =
          >>=-eq-done (read_regs htobe16 nregs (input_words s.input) (address - 1) buffer 0) _
            (rw within at h) in
        ap (λ (x : Reply). x.state) (sym (done-injective _ _ e))
    | inr beyond ↦ ap (λ (x : Reply). x.state) (sym (done-injective _ _ (rw beyond at h)))
  ]

  pub holding_read_same :
      (s : ModbusState) (buffer : List ℕ) (address nregs : ℕ) {r : Reply}
      → holding_locked htobe16 be16toh s buffer address nregs mb_reg_read ≡ done r
      → r.state ≡ s
  unfolding holding_locked holding_access
  holding_read_same s buffer address nregs h = elim (Bool-cases (in_window 31 2 address nregs)) [
    | inl within ↦
        let (_, _, e) =
          >>=-eq-done (read_regs htobe16 nregs (holding_words s.holding) (address - 31) buffer 0) _
            (rw within at h) in
        ap (λ (x : Reply). x.state) (sym (done-injective _ _ e))
    | inr beyond ↦ ap (λ (x : Reply). x.state) (sym (done-injective _ _ (rw beyond at h)))
  ]

  -- The unlock at the end of a callback.
  unlocked-IsReady :
      (s : ModbusState) (a : Reply) {r : Reply}
      → done (unlock_reply a) ≡ done r
      → KeepsState s a
      → IsReady r.state × (r.state.input ≡ s.input)
  unlocked-IsReady s a {r} e k =
      let e' : unlock_reply a ≡ r = ground arith in
      rw (← e') (unlock-IsReady a.state k.valid, k.input)

  -- From a valid state, whatever the request and the byte order, a read of input registers that
  -- returns leaves a valid state with the mutex free and the input registers as they were.
  pub reg_input_cb-IsReady :
      (s : ModbusState) (buffer : List ℕ) (address nregs : ℕ) (r : Reply)
      → IsValid s
      → reg_input_cb htobe16 s buffer address nregs ≡ done r
      → IsReady r.state × (r.state.input ≡ s.input)
  unfolding reg_input_cb
  reg_input_cb-IsReady s buffer address nregs r v h =
      let (t, e, k) = >>=-eq-done (mutex_lock s) _ h in
      let (a, run, u) = >>=-eq-done (input_locked htobe16 t buffer address nregs) _ k in
      let kept = input_locked-KeepsState t buffer address nregs (mutex_lock-IsValid s e v) run in
      let (ready, same) = unlocked-IsReady t a u kept in (ready, same ∙ mutex_lock-input s e)

  -- From a valid state, whatever the request and the byte order, an access to holding registers
  -- that returns leaves a valid state with the mutex free and the input registers as they were.
  pub reg_holding_cb-IsReady :
      (s : ModbusState) (buffer : List ℕ) (address nregs : ℕ) (mode : MbRegisterMode) (r : Reply)
      → IsValid s
      → reg_holding_cb htobe16 be16toh s buffer address nregs mode ≡ done r
      → IsReady r.state × (r.state.input ≡ s.input)
  unfolding reg_holding_cb
  reg_holding_cb-IsReady s buffer address nregs mode r v h =
      let (t, e, k) = >>=-eq-done (mutex_lock s) _ h in
      let (a, run, u) =
        >>=-eq-done (holding_locked htobe16 be16toh t buffer address nregs mode) _ k in
      let kept =
        holding_locked-KeepsState t buffer address nregs mode (mutex_lock-IsValid s e v) run in
      let (ready, same) = unlocked-IsReady t a u kept in (ready, same ∙ mutex_lock-input s e)
