-- ===== src/Modbus/Tests/Told.antt =====
-- The account of the registers at a concrete schedule: a count, a request for a reset, the start of the
-- ADC thread, and a read.
use railab_nuttx_code.Prelude.{◌≡◌, refl, [], ◌∷◌, ◌++◌, arith, true, pos, fetch, store}
use railab_nuttx_code.Modbus.Callbacks.{
  Reply, mb_enoerr, mb_reg_read, mb_reg_write, read_regs, holding_locked, holding_access,
  write_regs,
}
use railab_nuttx_code.Modbus.Account.{account}
use railab_nuttx_code.Modbus.Account.Answers.{replies_are_told}
use railab_nuttx_code.Modbus.Wire.{wire}
use railab_nuttx_code.Modbus.Account.Told.{Displays, registers_are_told}
use railab_nuttx_code.Modbus.Threads.Linear.{events}
use railab_nuttx_code.Modbus.Adc.{reset_from, adc_reset_stats}
use railab_nuttx_code.Modbus.Threads.{
  Request, holding, main_lock, main_count, System, modbus_lock, modbus_reply, adc_open, adc_start,
  Reach, created, later,
}
use railab_nuttx_code.Modbus.Device.{Config, main_start, device_initialize}
use railab_nuttx_code.Modbus.Tests.Data.{swap16, swap16-SwapsBytes, buffer4}

abbrev both_threads : Config
both_threads = record { modbus = true; adc = true }

-- A write of 1 to register 32.
abbrev ask_reset : Request
ask_reset = holding (0 ∷ 1 ∷ []) 32 1 mb_reg_write

-- From the start-up on, the main thread counts, a master asks for a reset, and the ADC thread starts.
ticked : (s : System) × Reach swap16 swap16 (main_start both_threads (pos 0) (pos 0) (pos 0)).0 s
unfolding main_start device_initialize adc_reset_stats reset_from holding_locked holding_access
    write_regs fetch store
ticked =
    let r2 = later (later created (main_lock refl refl)) (main_count refl) in
    let r3 = later r2 (modbus_lock ask_reset refl refl) in
    let r4 = later r3 (modbus_reply ask_reset _ refl refl) in
    let r6 = later (later r4 (adc_open refl refl)) (adc_start _ refl refl) in (_, r6)

registers_are_told_example :
    let a = account (events swap16 swap16 ticked.1) in
    (ticked.0.device.input.cntr ≡ 1)
    × (ticked.0.device.input.status ≡ 1)
    × (ticked.0.device.holding ≡ record { interval = 10000; rst_stats = 1 })
    × Displays a ticked.0.device
unfolding ticked main_start device_initialize
registers_are_told_example =
    registers_are_told swap16 swap16 swap16-SwapsBytes swap16-SwapsBytes both_threads (pos 0)
      (pos 0) ticked.1 (((omega arith, (omega arith, tt)), omega arith), tt) refl

-- The master reads the holding registers: the interval, and its request, which no sample has met yet.
abbrev read_back : Request
read_back = holding buffer4 31 2 mb_reg_read

back : Reply
unfolding ticked
back = record { mberr = mb_enoerr; buffer = 0x27 ∷ 0x10 ∷ 0 ∷ 1 ∷ []; state = ticked.0.device }

read_out : (s : System) × Reach swap16 swap16 (main_start both_threads (pos 0) (pos 0) (pos 0)).0 s
unfolding ticked back holding_locked holding_access read_regs fetch store
read_out =
    let r1 = later ticked.1 (modbus_lock read_back refl refl) in
    let locked_reply = record back { state = record ticked.0.device { lock = true } } in
    (_, later r1 (modbus_reply read_back locked_reply refl refl))

replies_are_told_example : (back.mberr ≡ mb_enoerr) × (back.buffer ≡ wire (10000 ∷ 1 ∷ []) ++ [])
unfolding read_out ticked back main_start device_initialize
replies_are_told_example =
    replies_are_told swap16 swap16 swap16-SwapsBytes swap16-SwapsBytes both_threads (pos 0) (pos 0)
      read_back back _ read_out.1 (tt, (((omega arith, (omega arith, tt)), omega arith), tt)) refl
      refl (omega arith, omega arith)
