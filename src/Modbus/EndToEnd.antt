-- ===== src/Modbus/EndToEnd.antt =====
-- A master that asks for a reset of the statistics and reads them later: the write of the register, the
-- rounds of the ADC thread, and the read of all input registers, one after the other.
use railab_nuttx_code.Prelude.{
  ℕ, ◌^◌, ◌<◌, ◌≤◌, ◌≡◌, ◌≢◌, sym, ap, ◌∙◌, List, [], ◌∷◌, ◌++◌, ℤ, length, take, drop, done, All,
  arith,
}
use railab_nuttx_code.Modbus.State.{ModbusState, input_words, adc_samples}
use railab_nuttx_code.Modbus.Ready.{IsReady}
use railab_nuttx_code.Modbus.Wire.{wire, SwapsBytes}
use railab_nuttx_code.Modbus.Callbacks.{mb_enoerr, mb_reg_write, reg_input_cb, reg_holding_cb}
use railab_nuttx_code.Modbus.Callbacks.Views.{length-input_words}
use railab_nuttx_code.Modbus.Callbacks.Invariant.{reg_holding_cb-IsReady}
use railab_nuttx_code.Modbus.Callbacks.Replies.{reg_input_cb_reads}
use railab_nuttx_code.Modbus.Callbacks.RoundTrip.{write_values, take-all, written}
use railab_nuttx_code.Modbus.Adc.Channels.{channel, reading}
use railab_nuttx_code.Modbus.Adc.Statistics.{
  IsSample, Summarises, readings, run_rounds, run_rounds-IsTracked, asked-IsFresh,
}

module _ (htobe16 be16toh : ℕ → ℕ) (swap_out : SwapsBytes htobe16)
    (swap_in : SwapsBytes be16toh) where
  -- A read of all input registers.
  read_all :
      (s : ModbusState) (buffer : List ℕ)
      → IsReady s
      → 36 ≤ length buffer
      → reg_input_cb htobe16 s buffer 1 18
        ≡ done (record {
          mberr = mb_enoerr;
          buffer = wire (input_words s.input) ++ drop 36 buffer;
          state = s;
        })
  read_all s buffer k room =
      let ws = input_words s.input in
      let whole : take 18 ws ≡ ws =
        ap (λ n. take n ws) (sym (length-input_words s.input k.valid.shaped)) ∙ take-all ws in
      reg_input_cb_reads htobe16 swap_out s buffer 1 18 k.valid k.free (omega arith) room
      ∙ ap
          (λ words.
            done (record { mberr = mb_enoerr; buffer = wire words ++ drop 36 buffer; state = s }))
          whole

  -- On a little-endian host, from a valid state with the mutex free: a master that writes a value
  -- other than 0 to register 32, lets one or more rounds of the ADC thread pass over samples whose
  -- conversion fits `int`, and reads registers 1 to 18 with room in the buffer, gets MB_ENOERR both
  -- times and the input registers in wire format; each of the four channels in them summarises exactly
  -- the readings of these rounds.
  pub reset_then_read :
      (s : ModbusState) (v : ℕ) (sample : List ℤ) (older : List (List ℤ)) (buffer : List ℕ)
      → IsReady s
      → v ≢ 0
      → v < 2 ^ 16
      → All IsSample (sample ∷ older)
      → 36 ≤ length buffer
      → (asked out : ModbusState) × (reg_holding_cb htobe16 be16toh s
            (wire (v ∷ []))
            32
            1
            mb_reg_write
          ≡ done (record { mberr = mb_enoerr; buffer = wire (v ∷ []); state = asked }))
        × (run_rounds (sample ∷ older) asked ≡ done out)
        × (reg_input_cb htobe16 out buffer 1 18
            ≡ done (record {
              mberr = mb_enoerr;
              buffer = wire (input_words out.input) ++ drop 36 buffer;
              state = out;
            }))
        × ((j : ℕ)
            → j < adc_samples
            → Summarises (reading sample j) (readings j older) (channel out.input j))
  reset_then_read s v sample older buffer k nz fits samples room =
      let asked = written s 1 (v ∷ []) in
      let w =
        write_values htobe16 be16toh swap_out swap_in s (v ∷ []) 32 k.free (omega arith)
          (fits, tt) in
      let ready =
        (reg_holding_cb-IsReady htobe16 be16toh s (wire (v ∷ [])) 32 1 mb_reg_write _ k.valid
          w).0 in
      let (out, run, t) =
        run_rounds-IsTracked sample older asked ready (asked-IsFresh asked nz) samples in
      (asked, out, w, run, read_all out buffer t.ready room, t.summaries)
