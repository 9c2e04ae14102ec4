-- ===== src/Modbus/Callbacks/Writing.antt =====
-- The loop that copies registers from the buffer of a request.
use railab_nuttx_code.Prelude.{
  ℕ, zero, suc, ◌+◌, ◌*◌, ◌≤◌, ◌<◌, ◌^◌, ◌≡◌, refl, ap, ◌∙◌, List, [], ◌∷◌, ◌++◌, length, take,
  drop, length-append, done, store-append, fetch-append, arith, bit_or, u16, ◌<<<◌,
}
use railab_nuttx_code.Prelude.Bits.{bit_or_bytes}
use mathlib.Core.List.{append_assoc}
use native.Mathlib.Nat.{add-zero}
use railab_nuttx_code.Modbus.Wire.{unwire, AreBytes, SwapsBytes}
use railab_nuttx_code.Modbus.Callbacks.{write_regs}

module _ (be16toh : ℕ → ℕ) (swaps : SwapsBytes be16toh) where
  swap_first : (hi : ℕ) → hi < 2 ^ 8 → u16 (be16toh hi) ≡ hi * 256
  swap_first hi h = omega (arith, swaps hi (omega arith))

  swap_second :
      (hi lo : ℕ)
      → hi < 2 ^ 8
      → lo < 2 ^ 8
      → u16 (bit_or (hi * 256) (be16toh (lo <<< 8))) ≡ hi * 256 + lo
  swap_second hi lo h l =
      let e : be16toh (lo <<< 8) ≡ lo = omega (arith, swaps (lo <<< 8) (omega arith)) in
      rw e (omega (arith, bit_or_bytes hi lo l))

  write_regs-suc :
      (n : ℕ) (pre post : List ℕ) (x i : ℕ) (front bytes : List ℕ) (hi lo p : ℕ)
      → length pre ≡ i
      → length front ≡ p
      → hi < 2 ^ 8
      → lo < 2 ^ 8
      → write_regs be16toh (suc n) (pre ++ x ∷ post) i (front ++ hi ∷ lo ∷ bytes) p
        ≡ write_regs be16toh n
            ((pre ++ (hi * 256 + lo) ∷ []) ++ post)
            (i + 1)
            (front ++ hi ∷ lo ∷ bytes)
            (p + 2)
  unfolding write_regs
  write_regs-suc n pre post x i front bytes hi lo p ei ep h l =
      let buffer = hi ∷ lo ∷ bytes in
      let put = λ (old new : ℕ).
        rw (add-zero i) at (store-append pre (old ∷ post) i 0 new ei (omega arith)) in
      rw
        (
          rw (add-zero p) at (fetch-append front buffer p 0 0 ep (omega arith)),
          swap_first hi h,
          put x (hi * 256),
          fetch-append front buffer p 1 0 ep (omega arith),
          rw (add-zero i) at (fetch-append pre ((hi * 256) ∷ post) i 0 0 ei (omega arith)),
          swap_second hi lo h l,
          put (hi * 256) (hi * 256 + lo),
        )
        (rw append_assoc)

  pub write_regs_lem :
      (n : ℕ) (pre post : List ℕ) (i : ℕ) (front bytes : List ℕ) (p : ℕ)
      → length pre ≡ i
      → length front ≡ p
      → n ≤ length post
      → 2 * n ≤ length bytes
      → AreBytes bytes
      → write_regs be16toh n (pre ++ post) i (front ++ bytes) p
        ≡ done (pre ++ (take n (unwire bytes) ++ drop n post))
  write_regs_lem zero pre post i front bytes p ei ep fits room all = unfold write_regs in refl
  write_regs_lem (suc n) pre [] i front bytes p ei ep fits room all = absurd (omega arith)
  write_regs_lem (suc n) pre (x ∷ post) i front [] p ei ep fits room all = absurd (omega arith)
  write_regs_lem (suc n) pre (x ∷ post) i front (hi ∷ []) p ei ep fits room all =
      absurd (omega arith)
  write_regs_lem (suc n) pre (x ∷ post) i front (hi ∷ lo ∷ bytes) p ei ep fits room all =
      rw
        (
          write_regs-suc n pre post x i front bytes hi lo p ei ep all.0 all.1.0,
          ← append_assoc front (hi ∷ lo ∷ []) bytes,
        )
        (write_regs_lem n (pre ++ (hi * 256 + lo) ∷ []) post (i + 1) (front ++ hi ∷ lo ∷ []) bytes
            (p + 2) (omega (arith, length-append {0} pre ((hi * 256 + lo) ∷ [])))
            (omega (arith, length-append {0} front (hi ∷ lo ∷ []))) (omega arith) (omega arith)
            all.1.1
          ∙ ap done (append_assoc pre _ _))
