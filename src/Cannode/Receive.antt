-- ===== src/Cannode/Receive.antt =====
-- thread_rx of cannode_main.c: the filter on received messages and the LED request, with led_set.
pub mod Filter
pub mod Extended
pub mod Traffic
use railab_nuttx_code.Prelude.{
  ℕ, ◌+◌, ◌-◌, ◌%◌, ◌^◌, Bool, true, false, not, List, [], ◌∷◌, get_or, ℤ, pos, ltb_ℤ,
  if◌then◌else◌, bit_and, u32, ◌==◌,
}
use railab_nuttx_code.Cannode.Message.{CannodeEnv, CanMsg, canmsg_nodeid_mask, canmsg_led_id}
use railab_nuttx_code.Cannode.Driver.{neg_errno}

-- What the thread does to the outside: the ioctl on the LED device with a set of LEDs, or, without
-- CONFIG_USERLED, a print of the request.
pub data Effect : Type 0 where
  uled_set_all : ℕ → Effect
  print_request : ℕ → Effect

-- led_init, and the result of led_set.
unfoldable pub led_init : (fd : ℤ) (errno : ℕ) → ℤ
led_init fd errno = if ltb_ℤ fd (pos 0) then neg_errno errno else fd

-- The set of LEDs that led_set hands to its ioctl.
unfoldable pub ledset : (state : Bool) → ℕ
ledset state = if state then 1 else 0

-- One round of the loop of thread_rx on what can_read returned. `userled` is CONFIG_USERLED.
unfoldable pub rx_round : (userled : Bool) → CannodeEnv → (ret : ℤ) → CanMsg → List Effect
unfolding ledset
rx_round userled env ret msg =
    if ltb_ℤ (pos 0) ret
    then (if bit_and msg.id canmsg_nodeid_mask == env.nodeid
        then (let msgid = u32 (msg.id + 2 ^ 32 - env.nodeid) in
            if msgid == canmsg_led_id
            then (if userled
                then uled_set_all (ledset (not (get_or msg.payload 0 0 == 0))) ∷ []
                else print_request (get_or msg.payload 0 0) ∷ [])
            else [])
        else [])
    else []

-- thread_rx on a sequence of reads, once the LED device is open; without it the thread stops.
abbrev rx_loop : (userled : Bool) → CannodeEnv → List (ℤ × CanMsg) → List (List Effect)
rx_loop userled env [] = []
rx_loop userled env ((ret, msg) ∷ reads) = rx_round userled env ret msg ∷ rx_loop userled env reads

unfoldable pub thread_rx :
    (userled : Bool)
    → CannodeEnv
    → (led_fd : ℤ) (errno : ℕ) → List (ℤ × CanMsg)
    → List (List Effect)
unfolding led_init
thread_rx userled env led_fd errno reads =
    if userled
    then (if ltb_ℤ (led_init led_fd errno) (pos 0) then [] else rx_loop userled env reads)
    else rx_loop userled env reads
