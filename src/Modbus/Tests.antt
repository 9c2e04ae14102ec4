-- ===== src/Modbus/Tests.antt =====
-- The Modbus slave at concrete inputs: tests of the definitions, and each theorem at an input that
-- meets its hypotheses.
mod Data
mod Threads
mod Told
mod Sampling
use railab_nuttx_code.Prelude.{
  ℕ, ◌+◌, ◌*◌, ◌≤◌, ◌<◌, ◌≡◌, ◌≢◌, ◌↔◌, refl, true, false, List, [], ◌∷◌, ◌++◌, ℤ, pos, negsuc,
  pos_part, neg_part, ◌≤ℤ◌, ◌+ℤ◌, ◌-ℤ◌, shr_ℤ, Outcome, done, blocked, fault, ◌>>=◌, take, drop,
  int16, arith, ltb_ℤ, fetch, store, int16_max, int16_min,
}
use railab_nuttx_code.Modbus.State.{
  ModbusState, IsValid, input_words, holding_words, holding_of_words, mutex_lock, adc_samples,
}
use railab_nuttx_code.Modbus.Ready.{IsReady}
use railab_nuttx_code.Modbus.Wire.{wire, unwire}
use railab_nuttx_code.Modbus.Callbacks.{
  mb_reg_read, mb_reg_write, mb_enoerr, mb_enoreg, Reply, read_regs, input_locked, reg_input_cb,
  holding_access, holding_locked, reg_holding_cb, reg_coils_cb, reg_discrete_cb,
}
use railab_nuttx_code.Modbus.Callbacks.Replies.{
  Outside, reg_input_cb_reads, reg_holding_cb_reads, reg_holding_cb_writes,
}
use railab_nuttx_code.Modbus.Callbacks.Always.{Answered, callbacks_always_answer}
use railab_nuttx_code.Modbus.Callbacks.Invariant.{reg_input_cb-IsReady, reg_holding_cb-IsReady}
use railab_nuttx_code.Modbus.Callbacks.RoundTrip.{write_then_read, written}
use Data.{swap16, swap16-SwapsBytes, device, device-IsReady, buffer4}

-- Register 31 is the interval, 10000 or 0x2710, high byte first.
read_interval :
    reg_holding_cb swap16 swap16 device buffer4 31 1 mb_reg_read
    ≡ done (record { mberr = mb_enoerr; buffer = 0x27 ∷ 0x10 ∷ 9 ∷ 9 ∷ []; state = device })
unfolding reg_holding_cb holding_locked holding_access read_regs fetch store
read_interval = refl

-- On a big-endian host, where htobe16 does nothing, the low byte comes first.
abbrev keep16 : ℕ → ℕ
keep16 x = x

read_big_endian :
    reg_holding_cb keep16 keep16 device buffer4 31 1 mb_reg_read
    ≡ done (record { mberr = mb_enoerr; buffer = 0x10 ∷ 0x27 ∷ 9 ∷ 9 ∷ []; state = device })
unfolding reg_holding_cb holding_locked holding_access read_regs fetch store
read_big_endian = refl

-- A read into a buffer that is too small runs out of bounds.
read_overrun : reg_input_cb swap16 device buffer4 1 3 ≡ fault
unfolding reg_input_cb input_locked read_regs fetch store
read_overrun = refl

reg_input_cb_reads_example :
    reg_input_cb swap16 device buffer4 2 1
    ≡ done (record { mberr = mb_enoerr; buffer = 1 ∷ 4 ∷ 9 ∷ 9 ∷ []; state = device })
reg_input_cb_reads_example =
    reg_input_cb_reads swap16 swap16-SwapsBytes device buffer4 2 1 device-IsReady.valid refl
      (omega arith) (omega arith)

reg_holding_cb_writes_example :
    reg_holding_cb swap16 swap16 device (0x12 ∷ 0x34 ∷ []) 32 1 mb_reg_write
    ≡ done (record {
      mberr = mb_enoerr;
      buffer = 0x12 ∷ 0x34 ∷ [];
      state = record device { holding = record { interval = 10000; rst_stats = 0x1234 } };
    })
reg_holding_cb_writes_example =
    reg_holding_cb_writes swap16 swap16 swap16-SwapsBytes swap16-SwapsBytes device
      (0x12 ∷ 0x34 ∷ []) 32 1 refl (omega arith) (omega arith) (omega arith)

-- Register 18 is the last input register, and 19 is none.
callbacks_always_answer_example :
    ((r : Reply) × (reg_input_cb swap16 device buffer4 18 2 ≡ done r)
      × Answered 1 18 18 2 buffer4 device r)
    × ((r : Reply) × (reg_holding_cb swap16 swap16 device buffer4 18 2 mb_reg_write ≡ done r)
        × Answered 31 2 18 2 buffer4 device r)
    × (reg_coils_cb device buffer4 18 2 mb_reg_write
        ≡ done (record { mberr = mb_enoreg; buffer = buffer4; state = device }))
    × (reg_discrete_cb device buffer4 18 2
        ≡ done (record { mberr = mb_enoreg; buffer = buffer4; state = device }))
callbacks_always_answer_example =
    callbacks_always_answer swap16 swap16 device buffer4 18 2 mb_reg_write device-IsReady
      (omega arith) (omega arith)

write_then_read_example :
    (do
      r ← reg_holding_cb swap16 swap16 device (wire (500 ∷ 1 ∷ [])) 31 2 mb_reg_write
      reg_holding_cb swap16 swap16 r.state buffer4 31 2 mb_reg_read)
    ≡ done (record {
      mberr = mb_enoerr;
      buffer = 1 ∷ 244 ∷ 0 ∷ 1 ∷ [];
      state = record device { holding = record { interval = 500; rst_stats = 1 } };
    })
write_then_read_example =
    write_then_read swap16 swap16 swap16-SwapsBytes swap16-SwapsBytes device (500 ∷ 1 ∷ []) buffer4
      31 device-IsReady.valid refl (omega arith) (omega arith) (omega arith)
