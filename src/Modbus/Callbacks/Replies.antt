-- ===== src/Modbus/Callbacks/Replies.antt =====
-- What a Modbus master gets from the register callbacks, on every branch.
use railab_nuttx_code.Prelude.{
  ℕ, ◌+◌, ◌-◌, ◌*◌, ◌≤◌, ◌<◌, ◌≡◌, refl, ◌⊎◌, true, false, List, [], ◌++◌, length, take, drop,
  length-take, length-drop, take-append-drop, done, arith,
}
use railab_nuttx_code.Modbus.Wire.{wire, unwire, AreBytes, SwapsBytes}
use railab_nuttx_code.Modbus.State.{
  ModbusState, IsValid, locked, input_words, holding_words, holding_of_words,
}
use railab_nuttx_code.Modbus.Callbacks.{
  MbRegisterMode, mb_reg_read, mb_reg_write, mb_enoerr, mb_enoreg, in_window, input_locked,
  holding_locked, reg_input_cb, holding_access, reg_holding_cb, reg_coils_cb, reg_discrete_cb,
}
use railab_nuttx_code.Modbus.Ready.{relock-IsValid}
use railab_nuttx_code.Modbus.Callbacks.Reading.{read_regs_lem}
use railab_nuttx_code.Modbus.Callbacks.Writing.{write_regs_lem}
use railab_nuttx_code.Modbus.Callbacks.Views.{
  input_words-AreWords, length-input_words, holding_words-AreWords,
}

-- Registers inside, and not inside, a window that starts at `start`.
abbrev pub Inside : (start count address nregs : ℕ) → Type 0
Inside start count address nregs = (start ≤ address) × (address + nregs ≤ start + count)

abbrev pub Outside : (start count address nregs : ℕ) → Type 0
Outside start count address nregs = (address < start) ⊎ (start + count < address + nregs)

pub in_window-Inside :
    (start count address nregs : ℕ)
    → Inside start count address nregs
    → in_window start count address nregs ≡ true
in_window-Inside start count address nregs h = ground arith

in_window-Outside :
    (start count address nregs : ℕ)
    → Outside start count address nregs
    → in_window start count address nregs ≡ false
in_window-Outside start count address nregs h = ground arith

module _ (htobe16 : ℕ → ℕ) (swaps : SwapsBytes htobe16) where
  pub input_locked_reads :
      (s : ModbusState) (buffer : List ℕ) (address nregs : ℕ)
      → IsValid s
      → Inside 1 18 address nregs
      → 2 * nregs ≤ length buffer
      → input_locked htobe16 s buffer address nregs
        ≡ done (record {
          mberr = mb_enoerr;
          buffer =
              wire (take nregs (drop (address - 1) (input_words s.input)))
              ++ drop (2 * nregs) buffer;
          state = s;
        })
  unfolding input_locked
  input_locked_reads s buffer address nregs v inside room =
      let loop =
        read_regs_lem htobe16 swaps nregs (input_words s.input) (address - 1) [] buffer 0 refl
          (omega (arith, length-input_words s.input v.shaped)) room (input_words-AreWords s v) in
      rw (in_window-Inside 1 18 address nregs inside, loop)

  -- On a little-endian host, with the mutex free, a valid state and room in the buffer, a read of
  -- input registers 1 to 18 returns MB_ENOERR, the addressed registers in wire format in front of
  -- the untouched rest of the buffer, and the state as it was.
  pub reg_input_cb_reads :
      (s : ModbusState) (buffer : List ℕ) (address nregs : ℕ)
      → IsValid s
      → s.lock ≡ false
      → Inside 1 18 address nregs
      → 2 * nregs ≤ length buffer
      → reg_input_cb htobe16 s buffer address nregs
        ≡ done (record {
          mberr = mb_enoerr;
          buffer =
              wire (take nregs (drop (address - 1) (input_words s.input)))
              ++ drop (2 * nregs) buffer;
          state = s;
        })
  unfolding reg_input_cb
  reg_input_cb_reads s buffer address nregs v free inside room =
      let held =
        input_locked_reads (locked s) buffer address nregs (relock-IsValid s v).0 inside room in
      simp (free, held) (ground arith)

-- With the mutex free, a read of input registers that are not all in 1 to 18 returns MB_ENOREG and
-- changes neither the buffer nor the state.
pub reg_input_cb_rejects :
    (htobe16 : ℕ → ℕ) (s : ModbusState) (buffer : List ℕ) (address nregs : ℕ)
    → s.lock ≡ false
    → Outside 1 18 address nregs
    → reg_input_cb htobe16 s buffer address nregs
      ≡ done (record { mberr = mb_enoreg; buffer = buffer; state = s })
unfolding reg_input_cb input_locked
reg_input_cb_rejects htobe16 s buffer address nregs free out =
    simp (free, in_window-Outside 1 18 address nregs out) (ground arith)

-- With the mutex free, a read or a write of holding registers that are not all in 31 and 32 returns
-- MB_ENOREG and changes neither the buffer nor the state, as every access to coils and discrete
-- inputs does.
pub reg_holding_cb_rejects :
    (htobe16 be16toh : ℕ → ℕ) (s : ModbusState) (buffer : List ℕ) (address nregs : ℕ)
    (mode : MbRegisterMode)
    → s.lock ≡ false
    → Outside 31 2 address nregs
    → (reg_holding_cb htobe16 be16toh s buffer address nregs mode
        ≡ done (record { mberr = mb_enoreg; buffer = buffer; state = s }))
      × (reg_coils_cb s buffer address nregs mode
          ≡ done (record { mberr = mb_enoreg; buffer = buffer; state = s }))
      × (reg_discrete_cb s buffer address nregs
          ≡ done (record { mberr = mb_enoreg; buffer = buffer; state = s }))
unfolding reg_holding_cb holding_locked reg_coils_cb reg_discrete_cb
reg_holding_cb_rejects htobe16 be16toh s buffer address nregs mode free out =
    (simp (free, in_window-Outside 31 2 address nregs out) (ground arith), refl, refl)

module _ (htobe16 be16toh : ℕ → ℕ) (swap_out : SwapsBytes htobe16)
    (swap_in : SwapsBytes be16toh) where
  -- On a little-endian host, with the mutex free, a valid state and room in the buffer, a read of
  -- holding registers 31 and 32 returns MB_ENOERR, the addressed registers in wire format in front
  -- of the untouched rest of the buffer, and the state as it was.
  pub reg_holding_cb_reads :
      (s : ModbusState) (buffer : List ℕ) (address nregs : ℕ)
      → IsValid s
      → s.lock ≡ false
      → Inside 31 2 address nregs
      → 2 * nregs ≤ length buffer
      → reg_holding_cb htobe16 be16toh s buffer address nregs mb_reg_read
        ≡ done (record {
          mberr = mb_enoerr;
          buffer =
              wire (take nregs (drop (address - 31) (holding_words s.holding)))
              ++ drop (2 * nregs) buffer;
          state = s;
        })
  unfolding reg_holding_cb holding_locked holding_access
  reg_holding_cb_reads s buffer address nregs v free inside room =
      let loop =
        read_regs_lem htobe16 swap_out nregs (holding_words s.holding) (address - 31) [] buffer 0
          refl (omega arith) room (holding_words-AreWords s v) in
      simp (free, in_window-Inside 31 2 address nregs inside, loop) (ground arith)

  -- On a little-endian host, with the mutex free and a buffer of bytes that holds the values, a
  -- write of holding registers 31 and 32 returns MB_ENOERR and the buffer as it was, puts the
  -- values of the request's big-endian byte pairs into the addressed registers, and changes
  -- nothing else.
  pub reg_holding_cb_writes :
      (s : ModbusState) (buffer : List ℕ) (address nregs : ℕ)
      → s.lock ≡ false
      → Inside 31 2 address nregs
      → 2 * nregs ≤ length buffer
      → AreBytes buffer
      → let old = holding_words s.holding in
        let i = address - 31 in
        reg_holding_cb htobe16 be16toh s buffer address nregs mb_reg_write
        ≡ done (record {
          mberr = mb_enoerr;
          buffer = buffer;
          state = record s {
            holding =
                holding_of_words
                  (take i old ++ (take nregs (unwire buffer) ++ drop nregs (drop i old)))
                  s.holding;
          };
        })
  unfolding reg_holding_cb holding_locked holding_access
  reg_holding_cb_writes s buffer address nregs free inside room bytes =
      let old = holding_words s.holding in
      let i = address - 31 in
      let loop =
        write_regs_lem be16toh swap_in nregs (take i old) (drop i old) i [] buffer 0
          (length-take i old (omega arith)) refl (omega (arith, length-drop {0} i old)) room
          bytes in
      simp (free, in_window-Inside 31 2 address nregs inside, rw (take-append-drop i old) at loop)
        (ground arith)
