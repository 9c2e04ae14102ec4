-- ===== src/Modbus/Callbacks/Always.antt =====
-- What the callbacks do on every request whose buffer has room, whatever the byte order is: they
-- return, and they write nothing outside their buffer and their registers.
use railab_nuttx_code.Prelude.{
  ℕ, zero, suc, ◌+◌, ◌*◌, ◌^◌, ◌≤◌, ◌<◌, ◌≡◌, refl, ◌∙◌, List, length, length-set, set, All-set, u8,
  ◌-◌, bit_and, ◌>>>◌, done, >>=-eq-done, fetch, store, store-eq-done, arith, ◌⊎◌, inl, inr,
}
use mathlib.Core.Path.{subst}
use railab_nuttx_code.Modbus.Wire.{AreBytes}
use railab_nuttx_code.Modbus.Ready.{IsReady, relock-IsValid}
use railab_nuttx_code.Modbus.State.{ModbusState, input_words, holding_words, locked}
use railab_nuttx_code.Modbus.Callbacks.{
  MbRegisterMode, mb_reg_read, mb_reg_write, mb_enoerr, mb_enoreg, Reply, unlock_reply, read_regs,
  write_regs, input_locked, reg_input_cb, holding_access, holding_locked, reg_holding_cb,
  reg_coils_cb, reg_discrete_cb,
}
use railab_nuttx_code.Modbus.Callbacks.Totals.{input_locked_total, holding_locked_total}
use railab_nuttx_code.Modbus.Callbacks.Invariant.{reg_input_cb-IsReady, reg_holding_cb-IsReady}
use railab_nuttx_code.Modbus.Callbacks.Replies.{
  Inside, Outside, in_window-Inside, reg_input_cb_rejects, reg_holding_cb_rejects,
}

-- An array of bytes in place of another of the same size.
pub record IsLike (buffer out : List ℕ) : Type 0 where
  pub size : length out ≡ length buffer
  pub bytes : AreBytes out

set-IsLike :
    (buffer out : List ℕ) (i v : ℕ) → IsLike buffer out → v < 2 ^ 8 → IsLike buffer (set out i v)
set-IsLike buffer out i v k h = record {
  size = length-set out i v ∙ k.size;
  bytes = All-set _ out i v k.bytes h;
}

read_regs-IsLike :
    (htobe16 : ℕ → ℕ) (nregs : ℕ) (ptr : List ℕ) (index : ℕ) (buffer at_start : List ℕ) (p : ℕ)
    {out : List ℕ}
    → read_regs htobe16 nregs ptr index buffer p ≡ done out
    → IsLike at_start buffer
    → IsLike at_start out
unfolding read_regs
read_regs-IsLike htobe16 zero ptr i buffer b p h k = subst (IsLike b) (ground arith) k
read_regs-IsLike htobe16 (suc nregs) ptr i buffer b p h k =
    let (lo, _, h1) = >>=-eq-done (fetch ptr i) _ h in
    let low = u8 (bit_and (htobe16 lo) 0xff) in
    let (one, s1, h2) = >>=-eq-done (store buffer p low) _ h1 in
    let (hi, _, h3) = >>=-eq-done (fetch ptr i) _ h2 in
    let (two, s2, h4) = >>=-eq-done (store one (p + 1) (u8 (htobe16 hi >>> 8))) _ h3 in
    let k1 = set-IsLike b buffer p low k (omega arith) in
    let k1' : IsLike b one = rw (store-eq-done buffer p _ s1) k1 in
    let k2 = set-IsLike b one (p + 1) (u8 (htobe16 hi >>> 8)) k1' (omega arith) in
    let k2' : IsLike b two = rw (store-eq-done one (p + 1) _ s2) k2 in
    read_regs-IsLike htobe16 nregs ptr (i + 1) two b (p + 2) h4 k2'

-- A reply with MB_ENOERR.
record IsAnswer (buffer : List ℕ) (r : Reply) : Type 0 where
  pub like : IsLike buffer r.buffer
  pub code : r.mberr ≡ mb_enoerr

done-IsAnswer :
    (buffer : List ℕ) (a : Reply) {r : Reply}
    → done a ≡ done r
    → IsAnswer buffer a
    → IsAnswer buffer r
done-IsAnswer buffer a {r} e k = subst (IsAnswer buffer) {x = a} {y = r} (ground arith) k

-- How a callback ends on a request for the registers from `start`, `count` of them.
pub record Answered (start count address nregs : ℕ) (buffer : List ℕ) (s : ModbusState) (r : Reply)
    : Type 0 where
  pub ready : IsReady r.state
  pub input : r.state.input ≡ s.input
  pub like : IsLike buffer r.buffer
  pub code :
      (Inside start count address nregs × (r.mberr ≡ mb_enoerr))
      ⊎ (Outside start count address nregs
          × (r ≡ record { mberr = mb_enoreg; buffer = buffer; state = s }))

rejected-Answered :
    (start count address nregs : ℕ) (buffer : List ℕ) (s : ModbusState)
    → IsReady s
    → AreBytes buffer
    → Outside start count address nregs
    → Answered start count address nregs buffer s
        (record { mberr = mb_enoreg; buffer = buffer; state = s })
rejected-Answered start count address nregs buffer s k bytes out = record {
  ready = k;
  input = refl;
  like = record { size = refl; bytes = bytes };
  code = inr (out, refl);
}

in_or_out :
    (start count address nregs : ℕ)
    → Inside start count address nregs ⊎ Outside start count address nregs
in_or_out start count address nregs = omega arith

module _ (htobe16 be16toh : ℕ → ℕ) where
  input_locked-IsAnswer :
      (s : ModbusState) (buffer : List ℕ) (address nregs : ℕ) {r : Reply}
      → AreBytes buffer
      → Inside 1 18 address nregs
      → input_locked htobe16 s buffer address nregs ≡ done r
      → IsAnswer buffer r
  unfolding input_locked
  input_locked-IsAnswer s buffer address nregs bytes inside h =
      let (out, run, e) =
        >>=-eq-done (read_regs htobe16 nregs (input_words s.input) (address - 1) buffer 0) _
          (rw (in_window-Inside 1 18 address nregs inside) at h) in
      let k =
        read_regs-IsLike htobe16 nregs (input_words s.input) (address - 1) buffer buffer 0 run
          (record { size = refl; bytes = bytes }) in
      done-IsAnswer buffer _ e (record { like = k; code = refl })

  holding_access-IsAnswer :
      (s : ModbusState) (buffer : List ℕ) (index nregs : ℕ) (mode : MbRegisterMode) {r : Reply}
      → AreBytes buffer
      → holding_access htobe16 be16toh s buffer index nregs mode ≡ done r
      → IsAnswer buffer r
  unfolding holding_access
  holding_access-IsAnswer s buffer i nregs mb_reg_read bytes h =
      let (out, run, e) =
        >>=-eq-done (read_regs htobe16 nregs (holding_words s.holding) i buffer 0) _ h in
      let k =
        read_regs-IsLike htobe16 nregs (holding_words s.holding) i buffer buffer 0 run
          (record { size = refl; bytes = bytes }) in
      done-IsAnswer buffer _ e (record { like = k; code = refl })
  holding_access-IsAnswer s buffer i nregs mb_reg_write bytes h =
      let (_, _, e) =
        >>=-eq-done (write_regs be16toh nregs (holding_words s.holding) i buffer 0) _ h in
      done-IsAnswer buffer _ e
        (record { like = record { size = refl; bytes = bytes }; code = refl })

  holding_locked-IsAnswer :
      (s : ModbusState) (buffer : List ℕ) (address nregs : ℕ) (mode : MbRegisterMode) {r : Reply}
      → AreBytes buffer
      → Inside 31 2 address nregs
      → holding_locked htobe16 be16toh s buffer address nregs mode ≡ done r
      → IsAnswer buffer r
  unfolding holding_locked
  holding_locked-IsAnswer s buffer address nregs mode bytes inside h =
      holding_access-IsAnswer s buffer (address - 31) nregs mode bytes
        (rw (in_window-Inside 31 2 address nregs inside) at h)

  -- A read of input registers ends.
  reg_input_cb_answers :
      (s : ModbusState) (buffer : List ℕ) (address nregs : ℕ)
      → IsReady s
      → AreBytes buffer
      → 2 * nregs ≤ length buffer
      → (r : Reply) × (reg_input_cb htobe16 s buffer address nregs ≡ done r)
        × Answered 1 18 address nregs buffer s r
  reg_input_cb_answers s buffer address nregs k bytes room = elim (in_or_out 1 18 address nregs) [
    | inl inside ↦
        let (a, run) =
          input_locked_total htobe16 be16toh (locked s) buffer address nregs
            (relock-IsValid s k.valid).0 room in
        let whole : reg_input_cb htobe16 s buffer address nregs ≡ done (unlock_reply a) =
          unfold reg_input_cb in simp (k.free, run) (ground arith) in
        let (ready, input) =
          reg_input_cb-IsReady htobe16 be16toh s buffer address nregs _ k.valid whole in
        let answer = input_locked-IsAnswer (locked s) buffer address nregs bytes inside run in
        (
          unlock_reply a,
          whole,
          record {
            ready = ready;
            input = input;
            like = answer.like;
            code = inl (inside, answer.code);
          },
        )
    | inr out ↦ (
      record { mberr = mb_enoreg; buffer = buffer; state = s },
      reg_input_cb_rejects htobe16 s buffer address nregs k.free out,
      rejected-Answered 1 18 address nregs buffer s k bytes out,
    )
  ]

  -- A read or a write of holding registers ends.
  reg_holding_cb_answers :
      (s : ModbusState) (buffer : List ℕ) (address nregs : ℕ) (mode : MbRegisterMode)
      → IsReady s
      → AreBytes buffer
      → 2 * nregs ≤ length buffer
      → (r : Reply) × (reg_holding_cb htobe16 be16toh s buffer address nregs mode ≡ done r)
        × Answered 31 2 address nregs buffer s r
  reg_holding_cb_answers s buffer address nregs mode k bytes room =
      elim (in_or_out 31 2 address nregs) [
        | inl inside ↦
            let (a, run) =
              holding_locked_total htobe16 be16toh (locked s) buffer address nregs mode room in
            let whole : reg_holding_cb htobe16 be16toh s buffer address nregs mode
                ≡ done (unlock_reply a) =
              unfold reg_holding_cb in simp (k.free, run) (ground arith) in
            let (ready, input) =
              reg_holding_cb-IsReady htobe16 be16toh s buffer address nregs mode _ k.valid whole in
            let answer =
              holding_locked-IsAnswer (locked s) buffer address nregs mode bytes inside run in
            (
              unlock_reply a,
              whole,
              record {
                ready = ready;
                input = input;
                like = answer.like;
                code = inl (inside, answer.code);
              },
            )
        | inr out ↦ (
          record { mberr = mb_enoreg; buffer = buffer; state = s },
          (reg_holding_cb_rejects htobe16 be16toh s buffer address nregs mode k.free out).0,
          rejected-Answered 31 2 address nregs buffer s k bytes out,
        )
      ]

  -- In a valid state with the mutex free, and with a buffer of bytes that has room for the registers of
  -- the request, every callback returns, whatever the address, the number of registers and the byte
  -- order: there is no access out of bounds, the mutex is free again, the state is valid, the input
  -- registers are as they were, and the buffer holds as many bytes as before. The result is MB_ENOERR if
  -- all registers are input registers 1 to 18, or holding registers 31 and 32; else it is MB_ENOREG, and
  -- neither the buffer nor the state has changed, as after every access to coils and discrete inputs.
  pub callbacks_always_answer :
      (s : ModbusState) (buffer : List ℕ) (address nregs : ℕ) (mode : MbRegisterMode)
      → IsReady s
      → AreBytes buffer
      → 2 * nregs ≤ length buffer
      → ((r : Reply) × (reg_input_cb htobe16 s buffer address nregs ≡ done r)
          × Answered 1 18 address nregs buffer s r)
        × ((r : Reply) × (reg_holding_cb htobe16 be16toh s buffer address nregs mode ≡ done r)
            × Answered 31 2 address nregs buffer s r)
        × (reg_coils_cb s buffer address nregs mode
            ≡ done (record { mberr = mb_enoreg; buffer = buffer; state = s }))
        × (reg_discrete_cb s buffer address nregs
            ≡ done (record { mberr = mb_enoreg; buffer = buffer; state = s }))
  unfolding reg_coils_cb reg_discrete_cb
  callbacks_always_answer s buffer address nregs mode k bytes room = (
    reg_input_cb_answers s buffer address nregs k bytes room,
    reg_holding_cb_answers s buffer address nregs mode k bytes room,
    refl,
    refl,
  )
