-- ===== src/Modbus/Serial.antt =====
-- modbusslave_main.c as a device that does one whole operation after the other: the main thread's
-- count, the register callbacks, and the parts of the ADC thread that hold the mutex. The threads
-- are shown to do nothing else.
use railab_nuttx_code.Prelude.{ℕ, ◌≡◌, true, List, [], ◌∷◌, ℤ, Outcome, done}
use railab_nuttx_code.Modbus.State.{ModbusState}
use railab_nuttx_code.Modbus.Callbacks.{Reply, reg_input_cb, reg_holding_cb}
use railab_nuttx_code.Modbus.Adc.{thread_adc_start, adc_round}
use railab_nuttx_code.Modbus.Adc.Statistics.{IsSample}
use railab_nuttx_code.Modbus.Device.{main_round}
use railab_nuttx_code.Modbus.Threads.{Request, input, holding}

-- What the device has done: counted a second, replied to a request, started or stored a sample.
pub data Event : Type 0 where
  counted : Event
  replied : Request → Reply → Event
  started_adc : Event
  sampled : List ℤ → Event

module _ (htobe16 be16toh : ℕ → ℕ) where
  -- The callback that FreeModBus calls for a request.
  abbrev pub callback : Request → ModbusState → Outcome Reply
  callback (input buffer address nregs) s = reg_input_cb htobe16 s buffer address nregs
  callback (holding buffer address nregs mode) s =
      reg_holding_cb htobe16 be16toh s buffer address nregs mode

  -- The device after a sequence of events, the newest first.
  pub data Serial (start : ModbusState) : List Event → ModbusState → Type 0 where
    begin : Serial start [] start
    count :
        {es : List Event} {s t : ModbusState}
        → Serial start es s
        → main_round s ≡ done t
        → Serial start (counted ∷ es) t
    call :
        {es : List Event} {s : ModbusState} (q : Request) (r : Reply)
        → Serial start es s
        → callback q s ≡ done r
        → Serial start (replied q r ∷ es) r.state
    open_adc :
        {es : List Event} {s t : ModbusState} (fd : ℤ)
        → Serial start es s
        → thread_adc_start fd s ≡ done (t, true)
        → Serial start (started_adc ∷ es) t
    convert :
        {es : List Event} {s t : ModbusState} (trigger ret : ℤ) (sample : List ℤ) (interval : ℕ)
        → Serial start es s
        → IsSample sample
        → adc_round trigger ret sample s ≡ done (t, interval)
        → Serial start (sampled sample ∷ es) t
