-- ===== src/Modbus/Callbacks.antt =====
-- The FreeModBus callbacks of modbusslave_main.c: eMBRegInputCB, eMBRegHoldingCB, eMBRegCoilsCB and
-- eMBRegDiscreteCB. `htobe16` and `be16toh` are those of the C library in use; FreeModBus owns the
-- buffer, an array of bytes.
pub mod Totals
pub mod Reading
pub mod Writing
pub mod Views
pub mod Replies
pub mod Invariant
pub mod RoundTrip
pub mod Always
use railab_nuttx_code.Prelude.{
  ℕ, zero, suc, ◌+◌, ◌-◌, Bool, true, false, ◌&&◌, List, [], ◌∷◌, bit_and, bit_or, u8, u16, ◌<<<◌,
  ◌>>>◌, leb, if◌then◌else◌, Outcome, done, blocked, fault, ◌>>=◌, fetch, store,
}
use railab_nuttx_code.Modbus.State.{
  ModbusInput, ModbusHolding, ModbusState, mutex_lock, mutex_unlock, input_words, holding_words,
  holding_of_words, modbus_reg_input_start, modbus_reg_input_nregs, modbus_reg_holding_start,
  modbus_reg_holding_nregs,
}

-- The codes of eMBErrorCode that the callbacks return, and eMBRegisterMode.
pub data MbErrorCode : Type 0 where
  mb_enoerr : MbErrorCode
  mb_enoreg : MbErrorCode

pub data MbRegisterMode : Type 0 where
  mb_reg_read : MbRegisterMode
  mb_reg_write : MbRegisterMode

-- What a callback leaves behind: its result, the buffer and the device state.
pub record Reply : Type 0 where
  pub mberr : MbErrorCode
  pub buffer : List ℕ
  pub state : ModbusState

abbrev pub unlock_reply : Reply → Reply
unlock_reply r = record r { state = mutex_unlock r.state }

-- The bounds test of both callbacks; the sum is an `int`, so it does not wrap.
abbrev pub in_window : (start count address nregs : ℕ) → Bool
in_window start count address nregs = leb start address && leb (address + nregs) (start + count)

module _ (htobe16 : ℕ → ℕ) where
  -- The loop that copies registers out, with `nregs` rounds left; `at_byte` is how far `buffer` has
  -- moved.
  unfoldable pub read_regs :
      (nregs : ℕ) (ptr : List ℕ) (index : ℕ) (buffer : List ℕ) (at_byte : ℕ) → Outcome (List ℕ)
  read_regs zero ptr index buffer at_byte = done buffer
  read_regs (suc nregs) ptr index buffer at_byte = do
    lo ← fetch ptr index
    buffer ← store buffer at_byte (u8 (bit_and (htobe16 lo) 0xff))
    hi ← fetch ptr index
    buffer ← store buffer (at_byte + 1) (u8 (htobe16 hi >>> 8))
    read_regs nregs ptr (index + 1) buffer (at_byte + 2)

  -- The callback between the lock and the unlock.
  unfoldable pub input_locked : ModbusState → (buffer : List ℕ) (address nregs : ℕ) → Outcome Reply
  input_locked s buffer address nregs =
      if in_window modbus_reg_input_start modbus_reg_input_nregs address nregs
      then (do
        let index = address - modbus_reg_input_start
        buffer ← read_regs nregs (input_words s.input) index buffer 0
        done (record { mberr = mb_enoerr; buffer = buffer; state = s }))
      else done (record { mberr = mb_enoreg; buffer = buffer; state = s })

  unfoldable pub reg_input_cb : ModbusState → (buffer : List ℕ) (address nregs : ℕ) → Outcome Reply
  reg_input_cb s buffer address nregs = do
    s ← mutex_lock s
    r ← input_locked s buffer address nregs
    done (unlock_reply r)

module _ (be16toh : ℕ → ℕ) where
  -- The loop that copies registers in.
  unfoldable pub write_regs :
      (nregs : ℕ) (ptr : List ℕ) (index : ℕ) (buffer : List ℕ) (at_byte : ℕ) → Outcome (List ℕ)
  write_regs zero ptr index buffer at_byte = done ptr
  write_regs (suc nregs) ptr index buffer at_byte = do
    hi ← fetch buffer at_byte
    ptr ← store ptr index (u16 (be16toh hi))
    lo ← fetch buffer (at_byte + 1)
    reg ← fetch ptr index
    ptr ← store ptr index (u16 (bit_or reg (be16toh (lo <<< 8))))
    write_regs nregs ptr (index + 1) buffer (at_byte + 2)

module _ (htobe16 be16toh : ℕ → ℕ) where
  -- The `switch` on the mode.
  unfoldable pub holding_access :
      ModbusState → (buffer : List ℕ) (index nregs : ℕ) → MbRegisterMode → Outcome Reply
  holding_access s buffer index nregs mb_reg_read = do
    buffer ← read_regs htobe16 nregs (holding_words s.holding) index buffer 0
    done (record { mberr = mb_enoerr; buffer = buffer; state = s })
  holding_access s buffer index nregs mb_reg_write = do
    ptr ← write_regs be16toh nregs (holding_words s.holding) index buffer 0
    let written = record s { holding = holding_of_words ptr s.holding }
    done (record { mberr = mb_enoerr; buffer = buffer; state = written })

  -- The callback between the lock and the unlock.
  unfoldable pub holding_locked :
      ModbusState → (buffer : List ℕ) (address nregs : ℕ) → MbRegisterMode → Outcome Reply
  holding_locked s buffer address nregs mode =
      if in_window modbus_reg_holding_start modbus_reg_holding_nregs address nregs
      then holding_access s buffer (address - modbus_reg_holding_start) nregs mode
      else done (record { mberr = mb_enoreg; buffer = buffer; state = s })

  unfoldable pub reg_holding_cb :
      ModbusState → (buffer : List ℕ) (address nregs : ℕ) → MbRegisterMode → Outcome Reply
  reg_holding_cb s buffer address nregs mode = do
    s ← mutex_lock s
    r ← holding_locked s buffer address nregs mode
    done (unlock_reply r)

unfoldable pub reg_coils_cb :
    ModbusState → (buffer : List ℕ) (address ncoils : ℕ) → MbRegisterMode → Outcome Reply
reg_coils_cb s buffer address ncoils mode =
    done (record { mberr = mb_enoreg; buffer = buffer; state = s })

unfoldable pub reg_discrete_cb :
    ModbusState → (buffer : List ℕ) (address ndiscrete : ℕ) → Outcome Reply
reg_discrete_cb s buffer address ndiscrete =
    done (record { mberr = mb_enoreg; buffer = buffer; state = s })
