-- ===== src/Cannode/Main.antt =====
-- `main` of cannode_main.c: start-up, threads, and the heartbeats that its loop sends.
pub mod Heartbeats
use railab_nuttx_code.Prelude.{
  ℕ, Bool, true, false, List, [], ◌∷◌, ◌++◌, Option, none, some, ℤ, pos, negsuc, ltb_ℤ,
  if◌then◌else◌, ◌||◌, ◌&&◌, not, ◌==◌,
}
use railab_nuttx_code.Cannode.Message.{CannodeEnv, CanMsg, heartbeat_msg, can_get_timestamp}

-- CONFIG_USERLED, CONFIG_INPUT_BUTTONS and CONFIG_RAILAB_MINIMAL_CANNODE_DUMMY.
pub record Config : Type 0 where
  pub userled : Bool
  pub buttons : Bool
  pub dummy : Bool

pub data Thread : Type 0 where
  th_canrx : Thread
  th_button : Thread

-- What the system returns to `main` in one round of its loop: the two fields of the system time and
-- the result of can_send.
pub record Beat : Type 0 where
  pub tv_sec : ℕ
  pub tv_nsec : ℕ
  pub send_ret : ℤ

-- `main` so far: the threads that it created, the messages that it handed to can_send, and its result
-- if it has returned.
pub record Node : Type 0 where
  pub threads : List Thread
  pub sent : List CanMsg
  pub returned : Option ℤ

-- The loop, for as many rounds as are given.
unfoldable pub heartbeat_loop : CannodeEnv → List Beat → List CanMsg × Option ℤ
heartbeat_loop env [] = ([], none)
heartbeat_loop env (b ∷ bs) =
    let msg = heartbeat_msg env (can_get_timestamp b.tv_sec b.tv_nsec) in
    let (sent, returned) = heartbeat_loop env bs in
    if ltb_ℤ b.send_ret (pos 0) then (msg ∷ [], some (negsuc 0)) else (msg ∷ sent, returned)

-- pthread_create of one thread that the configuration asks for or does not: the threads then, and
-- whether `main` goes on.
abbrev pub create : (wanted : Bool) → Thread → (ret : ℤ) → List Thread × Bool
create false t ret = ([], true)
create true t (pos n) = if n == 0 then (t ∷ [], true) else ([], false)
create true t (negsuc n) = ([], false)

unfoldable pub cannode_main :
    Config → CannodeEnv → (can_init_ret create_rx_ret create_button_ret : ℤ) → List Beat → Node
unfolding heartbeat_loop
cannode_main c env can_init_ret create_rx_ret create_button_ret bs =
    let (rx, rx_ok) = create (c.userled || c.dummy) th_canrx create_rx_ret in
    let (button, button_ok) = create (c.buttons || c.dummy) th_button create_button_ret in
    let (sent, returned) = heartbeat_loop env bs in
    if ltb_ℤ can_init_ret (pos 0)
    then record { threads = []; sent = []; returned = some (negsuc 0) }
    else (if not rx_ok
        then record { threads = rx; sent = []; returned = some (negsuc 0) }
        else (if not button_ok
            then record { threads = rx ++ button; sent = []; returned = some (negsuc 0) }
            else record { threads = rx ++ button; sent = sent; returned = returned }))
