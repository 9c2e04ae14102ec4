-- ===== src/Modbus/Callbacks/Totals.antt =====
-- The callbacks return on every request with room in its buffer, whatever the byte order is.
use railab_nuttx_code.Prelude.{
  ℕ, zero, suc, ◌+◌, ◌-◌, ◌*◌, ◌≤◌, ◌≡◌, refl, List, length, set, get_or, length-set, done,
  fetch-done, store-done, u8, u16, bit_and, bit_or, ◌>>>◌, ◌<<<◌, arith, Bool-cases, inl, inr,
}
use railab_nuttx_code.Modbus.State.{
  ModbusState, IsValid, input_words, holding_words, holding_of_words,
}
use railab_nuttx_code.Modbus.Callbacks.{
  MbRegisterMode, mb_reg_read, mb_reg_write, mb_enoerr, mb_enoreg, Reply, in_window, read_regs,
  write_regs, input_locked, holding_access, holding_locked,
}
use railab_nuttx_code.Modbus.Callbacks.Views.{length-input_words}

read_regs_total :
    (htobe16 : ℕ → ℕ) (nregs : ℕ) (ptr : List ℕ) (index : ℕ) (buffer : List ℕ) (p : ℕ)
    → index + nregs ≤ length ptr
    → p + 2 * nregs ≤ length buffer
    → (out : List ℕ) × (read_regs htobe16 nregs ptr index buffer p ≡ done out)
unfolding read_regs
read_regs_total htobe16 zero ptr i buffer p inside room = (buffer, refl)
read_regs_total htobe16 (suc nregs) ptr i buffer p inside room =
    let lo = u8 (bit_and (htobe16 (get_or ptr i 0)) 0xff) in
    let hi = u8 (htobe16 (get_or ptr i 0) >>> 8) in
    let one = set buffer p lo in
    let two = set one (p + 1) hi in
    let len1 : length one ≡ length buffer = length-set buffer p lo in
    let len2 : length two ≡ length one = length-set one (p + 1) hi in
    let (out, run) =
      read_regs_total htobe16 nregs ptr (i + 1) two (p + 2) (omega arith)
        (omega (arith, len1, len2)) in
    (
      out,
      rw
          (
            fetch-done ptr i 0 (omega arith),
            store-done buffer p lo (omega arith),
            store-done one (p + 1) hi (omega (arith, len1)),
          )
          run,
    )

write_regs_total :
    (be16toh : ℕ → ℕ) (nregs : ℕ) (ptr : List ℕ) (index : ℕ) (buffer : List ℕ) (p : ℕ)
    → index + nregs ≤ length ptr
    → p + 2 * nregs ≤ length buffer
    → (out : List ℕ) × (write_regs be16toh nregs ptr index buffer p ≡ done out)
unfolding write_regs
write_regs_total be16toh zero ptr i buffer p inside room = (ptr, refl)
write_regs_total be16toh (suc nregs) ptr i buffer p inside room =
    let hi = u16 (be16toh (get_or buffer p 0)) in
    let one = set ptr i hi in
    let both = u16 (bit_or (get_or one i 0) (be16toh (get_or buffer (p + 1) 0 <<< 8))) in
    let two = set one i both in
    let len1 : length one ≡ length ptr = length-set ptr i hi in
    let len2 : length two ≡ length one = length-set one i both in
    let (out, run) =
      write_regs_total be16toh nregs two (i + 1) buffer (p + 2) (omega (arith, len1, len2))
        (omega arith) in
    (
      out,
      rw
          (
            fetch-done buffer p 0 (omega arith),
            store-done ptr i hi (omega arith),
            fetch-done buffer (p + 1) 0 (omega arith),
            fetch-done one i 0 (omega (arith, len1)),
            store-done one i both (omega (arith, len1)),
          )
          run,
    )

module _ (htobe16 be16toh : ℕ → ℕ) where
  pub input_locked_total :
      (s : ModbusState) (buffer : List ℕ) (address nregs : ℕ)
      → IsValid s
      → 2 * nregs ≤ length buffer
      → (r : Reply) × (input_locked htobe16 s buffer address nregs ≡ done r)
  unfolding input_locked
  input_locked_total s buffer address nregs v room =
      elim (Bool-cases (in_window 1 18 address nregs)) [
        | inl inside ↦
            let within : (1 ≤ address) × (address + nregs ≤ 19) = ground arith in
            let (out, run) =
              read_regs_total htobe16 nregs (input_words s.input) (address - 1) buffer 0
                (omega (arith, length-input_words s.input v.shaped, within)) (omega arith) in
            (record { mberr = mb_enoerr; buffer = out; state = s }, rw (inside, run))
        | inr outside ↦ (record { mberr = mb_enoreg; buffer = buffer; state = s }, rw outside)
      ]

  holding_access_total :
      (s : ModbusState) (buffer : List ℕ) (index nregs : ℕ) (mode : MbRegisterMode)
      → index + nregs ≤ 2
      → 2 * nregs ≤ length buffer
      → (r : Reply) × (holding_access htobe16 be16toh s buffer index nregs mode ≡ done r)
  unfolding holding_access
  holding_access_total s buffer index nregs mb_reg_read inside room =
      let (out, run) =
        read_regs_total htobe16 nregs (holding_words s.holding) index buffer 0 inside
          (omega arith) in
      (record { mberr = mb_enoerr; buffer = out; state = s }, rw run)
  holding_access_total s buffer index nregs mb_reg_write inside room =
      let (out, run) =
        write_regs_total be16toh nregs (holding_words s.holding) index buffer 0 inside
          (omega arith) in
      (
        record {
          mberr = mb_enoerr;
          buffer = buffer;
          state = record s { holding = holding_of_words out s.holding };
        },
        rw run,
      )

  pub holding_locked_total :
      (s : ModbusState) (buffer : List ℕ) (address nregs : ℕ) (mode : MbRegisterMode)
      → 2 * nregs ≤ length buffer
      → (r : Reply) × (holding_locked htobe16 be16toh s buffer address nregs mode ≡ done r)
  unfolding holding_locked
  holding_locked_total s buffer address nregs mode room =
      elim (Bool-cases (in_window 31 2 address nregs)) [
        | inl inside ↦
            let within : (31 ≤ address) × (address + nregs ≤ 33) = ground arith in
            let (r, run) =
              holding_access_total s buffer (address - 31) nregs mode (omega (arith, within))
                room in
            (r, rw (inside, run))
        | inr outside ↦ (record { mberr = mb_enoreg; buffer = buffer; state = s }, rw outside)
      ]
