-- ===== src/Hello.antt =====
-- apps/mini_hello, hello_main.c: the loop that counts what it prints. Sleeps are left out.
mod Tests
use railab_nuttx_code.Prelude.{
  ℕ, zero, suc, ◌+◌, ◌-◌, ◌<◌, ◌≤◌, ◌≡◌, ◌^◌, refl, List, [], ◌∷◌, length, get_elem?, some, Outcome,
  done, fault, ltb, ◌==◌, false, if◌then◌else◌, arith, Bool-cases, inl, inr,
}

abbrev pub int_max : ℕ
int_max = 2147483647

-- What the loop has printed, and `i` behind it, or the overflow of `i++`.
pub record Hello : Type 0 where
  pub printed : List ℕ
  pub counter : Outcome ℕ

-- Rounds of the loop, which `main` enters with 0.
pub hello_loop : (rounds i : ℕ) → Hello
hello_loop zero i = record { printed = []; counter = done i }
hello_loop (suc rounds) i =
    let rest = hello_loop rounds (i + 1) in
    if i == int_max
    then record { printed = i ∷ []; counter = fault }
    else record { printed = i ∷ rest.printed; counter = rest.counter }

unfoldable pub hello_main : (rounds : ℕ) → Hello
unfolding hello_loop
hello_main rounds = hello_loop rounds 0

loop_counter :
    (rounds i : ℕ)
    → i ≤ int_max
    → (hello_loop rounds i).counter
      ≡ (if ltb int_max (i + rounds) then fault else done (i + rounds))
unfolding hello_loop
loop_counter zero i h = ground arith
loop_counter (suc rounds) i h = elim (Bool-cases (i == int_max)) [
  | inl last ↦ rw last (ground arith)
  | inr more ↦
      let next : i + 1 ≤ int_max = ground arith in
      rw more (ground (arith, loop_counter rounds (i + 1) next))
]

length-loop :
    (rounds i : ℕ)
    → i ≤ int_max
    → length (hello_loop rounds i).printed
      ≡ (if ltb int_max (i + rounds) then int_max + 1 - i else rounds)
unfolding hello_loop
length-loop zero i h = ground arith
length-loop (suc rounds) i h = elim (Bool-cases (i == int_max)) [
  | inl last ↦ rw last (ground arith)
  | inr more ↦
      let next : i + 1 ≤ int_max = ground arith in
      rw more (ground (arith, length-loop rounds (i + 1) next))
]

loop_prints :
    (rounds i k : ℕ)
    → i ≤ int_max
    → k < rounds
    → i + k ≤ int_max
    → get_elem? (hello_loop rounds i).printed k ≡ some (i + k)
unfolding hello_loop
loop_prints zero i k h lt fits = absurd (omega arith)
loop_prints (suc rounds) i zero h lt fits = ground arith
loop_prints (suc rounds) i (suc k) h lt fits =
    let more : (i == int_max) ≡ false = ground arith in
    let same : i + 1 + k ≡ i + suc k = omega arith in
    rw (more, ← same) (loop_prints rounds (i + 1) k (omega arith) (omega arith) (omega arith))

-- Round `k` prints `k`, up to 2 ^ 31 - 1: after fewer than 2 ^ 31 rounds there are as many lines as
-- rounds, and `i` is their number; the round 2 ^ 31 prints the last line, and its `i++` overflows.
pub hello_counts :
    (rounds k : ℕ)
    → k < rounds
    → k < 2 ^ 31
    → (get_elem? (hello_main rounds).printed k ≡ some k)
      × (length (hello_main rounds).printed ≡ (if ltb rounds (2 ^ 31) then rounds else 2 ^ 31))
      × ((hello_main rounds).counter ≡ (if ltb rounds (2 ^ 31) then done rounds else fault))
unfolding hello_main
hello_counts rounds k lt fits =
    let at : 0 + k ≡ k = omega arith in
    let all : 0 + rounds ≡ rounds = omega arith in
    (
      rw at at (loop_prints rounds 0 k (omega arith) lt (omega arith)),
      ground (arith, length-loop rounds 0),
      ground (arith, loop_counter rounds 0),
    )
