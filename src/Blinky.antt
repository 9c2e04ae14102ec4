-- ===== src/Blinky.antt =====
-- The two programs that blink an LED: apps/mini_blinky_posix/blinky1_main.c, over the LED device, and
-- apps/mini_blinky_stm32/blinky2_main.c, over the GPIO functions of the STM32.
pub mod Toggles
mod Tests
use railab_nuttx_code.Prelude.{
  ℕ, zero, suc, Bool, true, false, not, List, [], ◌∷◌, Option, none, some, ℤ, pos, negsuc, ltb_ℤ,
  if◌then◌else◌, ◌==◌, bit_xor,
}

-- `ret != 0`.
abbrev pub nonzero : ℤ → Bool
nonzero (pos n) = not (n == 0)
nonzero (negsuc n) = true

-- The loop of blinky1_main.c, over the results of its ioctl: the sets of LEDs that it hands over, and
-- its result if it returns.
unfoldable pub blink_loop : (ledset : ℕ) (rets : List ℤ) → List ℕ × Option ℤ
blink_loop ledset [] = ([], none)
blink_loop ledset (ret ∷ rets) =
    let ledset = bit_xor ledset 1 in
    let rest = blink_loop ledset rets in
    if nonzero ret then (ledset ∷ [], some (negsuc 0)) else (ledset ∷ rest.0, rest.1)

-- `main` of blinky1_main.c; `ledset` is what its uninitialised variable holds.
unfoldable pub blinky1_main : (fd : ℤ) (ledset : ℕ) (rets : List ℤ) → List ℕ × Option ℤ
unfolding blink_loop
blinky1_main fd ledset rets =
    if ltb_ℤ fd (pos 0) then ([], some (negsuc 0)) else blink_loop ledset rets

-- The loop of blinky2_main.c for a number of rounds: what it writes to the LED.
unfoldable pub gpio_loop : (ledon : Bool) (rounds : ℕ) → List Bool
gpio_loop ledon zero = []
gpio_loop ledon (suc rounds) = not ledon ∷ gpio_loop (not ledon) rounds

unfoldable pub blinky2_main : (rounds : ℕ) → List Bool
unfolding gpio_loop
blinky2_main rounds = gpio_loop false rounds
