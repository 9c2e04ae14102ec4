-- ===== src/Modbus/Account.antt =====
-- What a master is promised about the registers of modbusslave_main.c: an account of them that is kept
-- from the events alone, the newest first, without the code.
pub mod Requests
pub mod Registers
pub mod Told
pub mod Answers
use railab_nuttx_code.Prelude.{
  ℕ, ◌+◌, ◌-◌, ◌*◌, ◌%◌, ◌^◌, ◌≤◌, List, [], ◌∷◌, ℤ, length, get_or, leb, ltb, ◌&&◌, ◌==◌,
  if◌then◌else◌,
}
use railab_nuttx_code.Modbus.State.{ModbusHolding, interval_default_us}
use railab_nuttx_code.Modbus.Wire.{unwire, AreBytes}
use railab_nuttx_code.Modbus.Callbacks.{mb_reg_read, mb_reg_write}
use railab_nuttx_code.Modbus.Threads.{Request, input, holding}
use railab_nuttx_code.Modbus.Serial.{Event, counted, replied, started_adc, sampled}

pub record Account : Type 0 where
  pub cntr : ℕ
  pub status : ℕ
  pub holding : ModbusHolding
  pub history : List (List ℤ)

-- The device that has done nothing.
abbrev pub powered : Account
powered = record {
  cntr = 0;
  status = 0;
  holding = record { interval = interval_default_us; rst_stats = 0 };
  history = [];
}

-- The value of a register after a write of `nregs` registers from `address` on: its word in the
-- request, if the request addresses it.
abbrev pub word_at : (buffer : List ℕ) (address nregs register old : ℕ) → ℕ
word_at buffer address nregs register old =
    if leb address register && ltb register (address + nregs)
    then get_or (unwire buffer) (register - address) old
    else old

-- A request writes if it stays within the two holding registers.
abbrev pub after_write : (buffer : List ℕ) (address nregs : ℕ) → ModbusHolding → ModbusHolding
after_write buffer address nregs h =
    if leb 31 address && leb (address + nregs) 33
    then record {
      interval = word_at buffer address nregs 31 h.interval;
      rst_stats = word_at buffer address nregs 32 h.rst_stats;
    }
    else h

abbrev pub after_request : Request → ModbusHolding → ModbusHolding
after_request (input buffer address nregs) h = h
after_request (holding buffer address nregs mb_reg_read) h = h
after_request (holding buffer address nregs mb_reg_write) h = after_write buffer address nregs h

-- A sample begins a new history when a reset is requested, and takes the request back.
abbrev pub told : Event → Account → Account
told counted a = record a { cntr = (a.cntr + 1) % 2 ^ 16 }
told (replied q _) a = record a { holding = after_request q a.holding }
told started_adc a = record a { status = 1; history = [] }
told (sampled sample) a = record a {
  holding = record a.holding { rst_stats = 0 };
  history = sample ∷ (if a.holding.rst_stats == 0 then a.history else []);
}

abbrev pub account : List Event → Account
account [] = powered
account (e ∷ es) = told e (account es)

-- Requests in an array of bytes that has room for their registers, as FreeModBus gives them.
abbrev pub IsRequest : Request → Type 0
IsRequest (input buffer address nregs) = Unit
IsRequest (holding buffer address nregs mb_reg_read) = Unit
IsRequest (holding buffer address nregs mb_reg_write) =
    AreBytes buffer × (2 * nregs ≤ length buffer)

abbrev pub AreRequests : List Event → Type 0
AreRequests [] = Unit
AreRequests (replied q _ ∷ es) = IsRequest q × AreRequests es
AreRequests (_ ∷ es) = AreRequests es
