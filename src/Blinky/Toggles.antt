-- ===== src/Blinky/Toggles.antt =====
-- What the blinking programs write.
use railab_nuttx_code.Prelude.{
  ℕ, zero, suc, ◌+◌, ◌-◌, ◌*◌, ◌/◌, ◌%◌, ◌<◌, ◌≡◌, refl, ap, ◌∙◌, Bool, true, false, List, [], ◌∷◌,
  ◌++◌, length, map, none, some, ℤ, pos, negsuc, ltb_ℤ, if◌then◌else◌, bit_xor, All, arith,
}
use railab_nuttx_code.Prelude.Bits.{bit_xor-one}
use railab_nuttx_code.Blinky.{nonzero, blink_loop, blinky1_main, gpio_loop, blinky2_main}

-- `n` sets of LEDs whose first one is `bit` and toggles, and whose others are those of `others`.
abbrev pub toggles : (others bit n : ℕ) → List ℕ
toggles others bit zero = []
toggles others bit (suc n) = (2 * others + bit) ∷ toggles others (1 - bit) n

abbrev pub Succeeds : ℤ → Type 0
Succeeds ret = nonzero ret ≡ false

flip : (others bit : ℕ) → bit < 2 → bit_xor (2 * others + bit) 1 ≡ 2 * others + (1 - bit)
flip others bit h = omega (arith, bit_xor-one (2 * others + bit))

loop_toggles :
    (others bit : ℕ) (rets : List ℤ)
    → bit < 2
    → All Succeeds rets
    → blink_loop (2 * others + bit) rets ≡ (toggles others (1 - bit) (length rets), none)
unfolding blink_loop
loop_toggles others bit [] b h = refl
loop_toggles others bit (ret ∷ rets) b h =
    rw (flip others bit b, h.0, loop_toggles others (1 - bit) rets (omega arith) h.1)

loop_stops :
    (others bit : ℕ) (rets : List ℤ) (ret : ℤ) (later : List ℤ)
    → bit < 2
    → All Succeeds rets
    → nonzero ret ≡ true
    → blink_loop (2 * others + bit) (rets ++ ret ∷ later)
      ≡ (toggles others (1 - bit) (suc (length rets)), some (negsuc 0))
unfolding blink_loop
loop_stops others bit [] ret later b h failed = rw (flip others bit b, failed)
loop_stops others bit (x ∷ rets) ret later b h failed =
    rw (flip others bit b, h.0, loop_stops others (1 - bit) rets ret later (omega arith) h.1 failed)

parts : (n : ℕ) → n ≡ 2 * (n / 2) + n % 2
parts n = omega arith

-- With a device that opens: as long as the ioctl succeeds, blinky1 hands over one set of LEDs in each
-- round; the first LED toggles, and the others stay as the uninitialised variable has them. The first
-- failure ends it with -1, after the set that failed, whatever would come later.
pub blinky1_toggles :
    (fd : ℤ) (ledset : ℕ) (rets : List ℤ) (ret : ℤ) (later : List ℤ)
    → ltb_ℤ fd (pos 0) ≡ false
    → All Succeeds rets
    → nonzero ret ≡ true
    → (blinky1_main fd ledset rets ≡ (toggles (ledset / 2) (1 - ledset % 2) (length rets), none))
      × (blinky1_main fd ledset (rets ++ ret ∷ later)
          ≡ (toggles (ledset / 2) (1 - ledset % 2) (suc (length rets)), some (negsuc 0)))
unfolding blinky1_main
blinky1_toggles fd ledset rets ret later opened h failed = (
  rw opened (
      ap (λ l. blink_loop l rets) (parts ledset)
      ∙ loop_toggles (ledset / 2) (ledset % 2) rets (omega arith) h),
  rw opened (
      ap (λ l. blink_loop l (rets ++ ret ∷ later)) (parts ledset)
      ∙ loop_stops (ledset / 2) (ledset % 2) rets ret later (omega arith) h failed),
)

-- The LEDs that a Boolean stands for.
abbrev pub led_of : Bool → ℕ
led_of b = if b then 1 else 0

toggles-gpio_loop : (b : Bool) (n : ℕ) → toggles 0 (1 - led_of b) n ≡ map led_of (gpio_loop b n)
unfolding gpio_loop
toggles-gpio_loop b zero = refl
toggles-gpio_loop true (suc n) = ap (λ l. 0 ∷ l) (toggles-gpio_loop false n)
toggles-gpio_loop false (suc n) = ap (λ l. 1 ∷ l) (toggles-gpio_loop true n)

-- Started with all LEDs off, over a device that opens and as long as the ioctl succeeds, blinky1 sets
-- the LED as blinky2 writes it, round by round.
pub blinky1_like_blinky2 :
    (fd : ℤ) (rets : List ℤ)
    → ltb_ℤ fd (pos 0) ≡ false
    → All Succeeds rets
    → (blinky1_main fd 0 rets).0 ≡ map led_of (blinky2_main (length rets))
unfolding blinky1_main blinky2_main
blinky1_like_blinky2 fd rets opened h =
    rw (opened, loop_toggles 0 0 rets (omega arith) h) (toggles-gpio_loop false (length rets))
