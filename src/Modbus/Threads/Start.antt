-- ===== src/Modbus/Threads/Start.antt =====
-- The threads start from what `main` leaves.
use railab_nuttx_code.Prelude.{ℕ, zero, suc, ◌<◌, refl, ℤ, pos, arith}
use railab_nuttx_code.Modbus.State.{adc_samples, zero_state}
use railab_nuttx_code.Modbus.Adc.Channels.{channel}
use railab_nuttx_code.Modbus.Device.{Config, main_start}
use railab_nuttx_code.Modbus.Device.Laws.{main_start-IsReady}
use railab_nuttx_code.Modbus.Threads.Invariant.{IsBlank}
use railab_nuttx_code.Modbus.Threads.Snapshot.{IsStart}

zero-IsBlank : (j : ℕ) → j < adc_samples → IsBlank (channel zero_state.input j)
zero-IsBlank zero p = refl
zero-IsBlank (suc zero) p = refl
zero-IsBlank (suc (suc zero)) p = refl
zero-IsBlank (suc (suc (suc zero))) p = refl
zero-IsBlank (suc (suc (suc (suc j)))) p = absurd (omega arith)

-- Once the mutex is initialised, `main` leaves a device from which the threads can start, whatever the
-- creation of the threads returns: valid, with the mutex free and every channel zero.
pub main_start-IsStart :
    (c : Config) (create_modbus create_adc : ℤ)
    → IsStart (main_start c (pos 0) create_modbus create_adc).0
unfolding main_start
main_start-IsStart c create_modbus create_adc = record {
  ready = (main_start-IsReady c create_modbus create_adc).0;
  blank = zero-IsBlank;
}
