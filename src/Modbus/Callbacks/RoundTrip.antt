-- ===== src/Modbus/Callbacks/RoundTrip.antt =====
-- A master that writes holding registers and reads them back gets what it wrote.
use railab_nuttx_code.Prelude.{
  ℕ, ◌+◌, ◌-◌, ◌*◌, ◌≤◌, ◌≡◌, refl, ap, false, List, [], ◌∷◌, ◌++◌, length, take, drop, length-take,
  length-drop, length-append, take-length-append, drop-length-append, done, ◌>>=◌, arith,
}
use railab_nuttx_code.Modbus.Wire.{
  wire, unwire-wire, length-wire, wire-AreBytes, AreWords, SwapsBytes,
}
use railab_nuttx_code.Modbus.State.{
  ModbusState, ModbusHolding, IsValid, holding_words, holding_of_words,
}
use railab_nuttx_code.Modbus.Callbacks.{mb_reg_read, mb_reg_write, mb_enoerr, reg_holding_cb}
use railab_nuttx_code.Modbus.Callbacks.Invariant.{reg_holding_cb-IsReady}
use railab_nuttx_code.Modbus.Callbacks.Replies.{Inside, reg_holding_cb_reads, reg_holding_cb_writes}

-- `xs` with `vs` from index `i` on.
abbrev pub splice : ℕ → List ℕ → List ℕ → List ℕ
splice i vs xs = take i xs ++ (vs ++ drop (length vs) (drop i xs))

module _ (i : ℕ) (vs xs : List ℕ) (fits : i + length vs ≤ length xs) where
  length-splice : length (splice i vs xs) ≡ length xs
  length-splice =
      let rest = drop (length vs) (drop i xs) in
      omega (
        arith,
        length-append {0} (take i xs) (vs ++ rest),
        length-append {0} vs rest,
        length-take {0} i xs (omega arith),
        length-drop {0} (length vs) (drop i xs),
        length-drop {0} i xs,
      )

  -- What was put in is what stands there.
  take-drop-splice : take (length vs) (drop i (splice i vs xs)) ≡ vs
  take-drop-splice =
      let rest = vs ++ drop (length vs) (drop i xs) in
      let front = take i xs in
      let e : drop i (front ++ rest) ≡ rest =
        rw (length-take i xs (omega arith)) at (drop-length-append front rest) in
      rw e (take-length-append vs _)

holding_words-holding_of_words :
    (ws : List ℕ) (h : ModbusHolding) → length ws ≡ 2 → holding_words (holding_of_words ws h) ≡ ws
holding_words-holding_of_words [] h e = absurd (omega arith)
holding_words-holding_of_words (a ∷ []) h e = absurd (omega arith)
holding_words-holding_of_words (a ∷ b ∷ []) h e = refl
holding_words-holding_of_words (a ∷ b ∷ c ∷ ws) h e = absurd (omega arith)

pub take-all : (xs : List ℕ) → take (length xs) xs ≡ xs
take-all [] = refl
take-all (x ∷ xs) = ap (λ l. x ∷ l) (take-all xs)

abbrev pub written : ModbusState → ℕ → List ℕ → ModbusState
written s i vs = record s {
  holding = holding_of_words (splice i vs (holding_words s.holding)) s.holding;
}

module _ (htobe16 be16toh : ℕ → ℕ) (swap_out : SwapsBytes htobe16)
    (swap_in : SwapsBytes be16toh) where
  pub write_values :
      (s : ModbusState) (vs : List ℕ) (address : ℕ)
      → s.lock ≡ false
      → Inside 31 2 address (length vs)
      → AreWords vs
      → reg_holding_cb htobe16 be16toh s (wire vs) address (length vs) mb_reg_write
        ≡ done (record { mberr = mb_enoerr; buffer = wire vs; state = written s (address - 31) vs })
  write_values s vs address free inside words =
      rw (unwire-wire vs, take-all vs) at
        (reg_holding_cb_writes htobe16 be16toh swap_out swap_in s (wire vs) address (length vs) free
          inside (omega (arith, length-wire vs)) (wire-AreBytes vs words))

  -- On a little-endian host, from a valid state with the mutex free: writing values to registers
  -- among 31 and 32 and then reading the same registers returns MB_ENOERR and the values that were
  -- written, in front of the untouched rest of the reply's buffer; the registers hold them.
  pub write_then_read :
      (s : ModbusState) (vs buffer : List ℕ) (address : ℕ)
      → IsValid s
      → s.lock ≡ false
      → Inside 31 2 address (length vs)
      → AreWords vs
      → 2 * length vs ≤ length buffer
      → (do
        r ← reg_holding_cb htobe16 be16toh s (wire vs) address (length vs) mb_reg_write
        reg_holding_cb htobe16 be16toh r.state buffer address (length vs) mb_reg_read)
        ≡ done (record {
          mberr = mb_enoerr;
          buffer = wire vs ++ drop (2 * length vs) buffer;
          state = written s (address - 31) vs;
        })
  write_then_read s vs buffer address v free inside words room =
      let i = address - 31 in
      let w = write_values s vs address free inside words in
      let ready =
        (reg_holding_cb-IsReady htobe16 be16toh s (wire vs) address (length vs) mb_reg_write _ v
          w).0 in
      let old = holding_words s.holding in
      let stored =
        holding_words-holding_of_words (splice i vs old) s.holding
          (length-splice i vs old (omega arith)) in
      let shown = take-drop-splice i vs old (omega arith) in
      rw (w, ◌>>=◌)
        (rw (stored, shown) at
          (reg_holding_cb_reads htobe16 be16toh swap_out swap_in (written s i vs) buffer address
            (length vs) ready.valid ready.free inside room))
