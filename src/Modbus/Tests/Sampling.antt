-- ===== src/Modbus/Tests/Sampling.antt =====
-- The ADC thread and start-up at concrete inputs.
use railab_nuttx_code.Prelude.{
  ℕ, ℤ, ◌⊎◌, ◌<◌, ◌≡◌, refl, true, List, [], ◌∷◌, ◌++◌, drop, replicate, pos, negsuc, ◌≤ℤ◌, ◌+ℤ◌,
  ◌-ℤ◌, ◌*ℤ◌, shr_ℤ, done, fault, int16, arith, inl,
}
use railab_nuttx_code.Modbus.State.{ModbusState, adc_samples, input_words}
use railab_nuttx_code.Modbus.Wire.{wire}
use railab_nuttx_code.Modbus.Callbacks.{mb_enoerr, mb_reg_write, reg_input_cb, reg_holding_cb}
use railab_nuttx_code.Modbus.Adc.{ema}
use railab_nuttx_code.Modbus.Adc.Convert.{raw_to_milivolt, Fits, IsVoltage, convert_complete}
use railab_nuttx_code.Modbus.Adc.Average.{Above, ema_rounds, ema_between, ema_settles}
use railab_nuttx_code.Modbus.Adc.Channels.{channel, reading}
use railab_nuttx_code.Modbus.EndToEnd.{reset_then_read}
use railab_nuttx_code.Modbus.Adc.Statistics.{Summarises, readings, run_rounds}
use railab_nuttx_code.Modbus.Device.{Config, returned, thread_modbus, main_start}
use railab_nuttx_code.Modbus.Device.Laws.{AllSucceed}
use railab_nuttx_code.Modbus.Tests.Data.{
  swap16, swap16-SwapsBytes, device, device-IsReady, sample, sample2, sample-IsSample,
  sample2-IsSample,
}

-- 32-bit overflow of the scaling is undefined, and starts here.
overflow :
    (raw_to_milivolt (pos 650753) ≡ fault)
    × (raw_to_milivolt (negsuc 650751) ≡ done (negsuc 524414))
unfolding raw_to_milivolt ◌*ℤ◌
overflow = (refl, refl)

-- The quotient truncates towards zero, the shift of the average rounds down.
rounding : (raw_to_milivolt (negsuc 0) ≡ done (pos 0)) × (ema (negsuc 0) (pos 0) ≡ negsuc 0)
unfolding raw_to_milivolt ema int16 ◌*ℤ◌ ◌+ℤ◌ ◌-ℤ◌
rounding = (refl, refl)

convert_complete_example :
    ((mv : ℤ) × (raw_to_milivolt (negsuc 999) ≡ done mv)
      × Fits (negsuc 999)
      × IsVoltage (negsuc 999) mv)
    ⊎ ((raw_to_milivolt (negsuc 999) ≡ fault) × (¬ Fits (negsuc 999)))
convert_complete_example = convert_complete (negsuc 999)

ema_between_example :
    (pos 8 ≤ℤ ema (pos 8) (pos 100))
    × (ema (pos 8) (pos 100) ≤ℤ pos 100)
    × (ema (pos 8) (pos 100) ≡ pos 100 +ℤ shr_ℤ (pos 8 -ℤ pos 100) 2)
ema_between_example = ema_between (pos 8) (pos 100) (omega arith) (omega arith)

ema_settles_example : Above (pos 50) (ema_rounds 60 (pos 50) (pos 0)) 3
ema_settles_example =
    ema_settles 60 (pos 50) (pos 0) 50 (omega arith) (omega arith) (inl (omega arith)) (omega arith)

abbrev both : Config
both = record { modbus = true; adc = true }

-- If the second thread fails, the first one goes on running when `main` returns.
second_fails : (main_start both (pos 0) (pos 0) (pos 11)).1 ≡ returned (thread_modbus ∷ [])
unfolding main_start
second_fails = refl

both-AllSucceed : AllSucceed both (pos 0) (pos 0) (pos 0)
both-AllSucceed = record { mutex = refl; modbus = λ e. refl; adc = λ e. refl }

-- A buffer for a read of all input registers.
abbrev buffer36 : List ℕ
buffer36 = replicate 36 0

reset_then_read_example :
    (asked out : ModbusState) × (reg_holding_cb swap16 swap16 device
        (wire (5 ∷ []))
        32
        1
        mb_reg_write
      ≡ done (record { mberr = mb_enoerr; buffer = wire (5 ∷ []); state = asked }))
    × (run_rounds (sample2 ∷ sample ∷ []) asked ≡ done out)
    × (reg_input_cb swap16 out buffer36 1 18
        ≡ done (record {
          mberr = mb_enoerr;
          buffer = wire (input_words out.input) ++ drop 36 buffer36;
          state = out;
        }))
    × ((j : ℕ)
        → j < adc_samples
        → Summarises (reading sample2 j) (readings j (sample ∷ [])) (channel out.input j))
reset_then_read_example =
    reset_then_read swap16 swap16 swap16-SwapsBytes swap16-SwapsBytes device 5 sample2 (sample ∷ [])
      buffer36 device-IsReady (λ e. absurd (omega arith)) (omega arith)
      (sample2-IsSample, (sample-IsSample, tt)) (omega arith)
