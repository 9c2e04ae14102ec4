-- ===== src/Modbus/Callbacks/Reading.antt =====
-- The loop that copies registers into the buffer of a reply.
use railab_nuttx_code.Prelude.{
  ℕ, zero, suc, ◌+◌, ◌*◌, ◌/◌, ◌%◌, ◌≤◌, ◌<◌, ◌^◌, ◌≡◌, refl, ap, ◌∙◌, List, [], ◌∷◌, ◌++◌, length,
  get_or, take, drop, drop-cons, length-append, done, fetch-done, store-append, arith, bit_and, u8,
  ◌>>>◌, store, All-get_or,
}
use railab_nuttx_code.Prelude.Bits.{bit_and_byte}
use mathlib.Core.List.{append_assoc}
use native.Mathlib.Nat.{add-zero}
use railab_nuttx_code.Modbus.Wire.{wire, AreWords, SwapsBytes}
use railab_nuttx_code.Modbus.Callbacks.{read_regs}

module _ (htobe16 : ℕ → ℕ) (swaps : SwapsBytes htobe16) where
  swap_low : (w : ℕ) → w < 2 ^ 16 → u8 (bit_and (htobe16 w) 0xff) ≡ w / 256
  swap_low w h = omega (arith, swaps w h, bit_and_byte (htobe16 w))

  swap_high : (w : ℕ) → w < 2 ^ 16 → u8 (htobe16 w >>> 8) ≡ w % 256
  swap_high w h = omega (arith, swaps w h)

  read_regs-suc :
      (n : ℕ) (ptr : List ℕ) (i : ℕ) (pre post : List ℕ) (x y p : ℕ)
      → length pre ≡ p
      → i < length ptr
      → AreWords ptr
      → read_regs htobe16 (suc n) ptr i (pre ++ x ∷ y ∷ post) p
        ≡ read_regs htobe16 n ptr
            (i + 1)
            ((pre ++ (get_or ptr i 0 / 256) ∷ (get_or ptr i 0 % 256) ∷ []) ++ post)
            (p + 2)
  unfolding read_regs
  read_regs-suc n ptr i pre post x y p e h words =
      let w = get_or ptr i 0 in
      let lt : w < 2 ^ 16 = All-get_or (λ (w : ℕ). w < 2 ^ 16) ptr i 0 words (omega arith) in
      let first : store (pre ++ x ∷ y ∷ post) p (w / 256) ≡ done (pre ++ (w / 256) ∷ y ∷ post) =
        rw (add-zero p) at (store-append pre (x ∷ y ∷ post) p 0 (w / 256) e (omega arith)) in
      let second : store (pre ++ (w / 256) ∷ y ∷ post) (p + 1) (w % 256)
          ≡ done (pre ++ (w / 256) ∷ (w % 256) ∷ post) =
        store-append pre ((w / 256) ∷ y ∷ post) p 1 (w % 256) e (omega arith) in
      rw (fetch-done ptr i 0 h, swap_low w lt, first, swap_high w lt, second) (rw append_assoc)

  pub read_regs_lem :
      (n : ℕ) (ptr : List ℕ) (i : ℕ) (pre post : List ℕ) (p : ℕ)
      → length pre ≡ p
      → i + n ≤ length ptr
      → 2 * n ≤ length post
      → AreWords ptr
      → read_regs htobe16 n ptr i (pre ++ post) p
        ≡ done (pre ++ (wire (take n (drop i ptr)) ++ drop (2 * n) post))
  read_regs_lem zero ptr i pre post p e h fits words = unfold read_regs in refl
  read_regs_lem (suc n) ptr i pre [] p e h fits words = absurd (omega arith)
  read_regs_lem (suc n) ptr i pre (x ∷ []) p e h fits words = absurd (omega arith)
  read_regs_lem (suc n) ptr i pre (x ∷ y ∷ post) p e h fits words =
      let w = get_or ptr i 0 in
      let two : 2 * suc n ≡ suc (suc (2 * n)) = omega arith in
      rw
        (
          read_regs-suc n ptr i pre post x y p e (omega arith) words,
          drop-cons ptr i 0 (omega arith),
          two,
        )
        (read_regs_lem n ptr (i + 1) (pre ++ (w / 256) ∷ (w % 256) ∷ []) post (p + 2)
            (omega (arith, length-append {0} pre ((w / 256) ∷ (w % 256) ∷ []))) (omega arith)
            (omega arith) words
          ∙ ap done (append_assoc pre _ _))
