-- ===== src/Cannode/Main/Heartbeats.antt =====
-- Which heartbeats `main` sends, and when it returns.
use railab_nuttx_code.Prelude.{
  ◌≡◌, refl, true, false, List, [], ◌∷◌, ◌++◌, map, none, some, ℤ, pos, negsuc, ltb_ℤ,
  if◌then◌else◌, ◌||◌, Bool-cases, inl, inr, arith, All,
}
use railab_nuttx_code.Cannode.Message.{CannodeEnv, CanMsg, heartbeat_msg, can_get_timestamp}
use railab_nuttx_code.Cannode.Main.{
  Config, Thread, th_canrx, th_button, Beat, heartbeat_loop, cannode_main,
}

abbrev pub SendOk : Beat → Type 0
SendOk b = ltb_ℤ b.send_ret (pos 0) ≡ false

abbrev pub heartbeat_of : CannodeEnv → Beat → CanMsg
heartbeat_of env b = heartbeat_msg env (can_get_timestamp b.tv_sec b.tv_nsec)

-- As long as every heartbeat can be sent, the loop sends one in each round, with the time of that
-- round, and `main` does not return. The first that cannot be sent is the last: `main` returns -1
-- there, whatever the later rounds would bring.
pub heartbeats_until_failure :
    (env : CannodeEnv) (bs : List Beat) (b : Beat) (later : List Beat)
    → All SendOk bs
    → ltb_ℤ b.send_ret (pos 0) ≡ true
    → (heartbeat_loop env bs ≡ (map (heartbeat_of env) bs, none))
      × (heartbeat_loop env (bs ++ b ∷ later)
          ≡ (map (heartbeat_of env) bs ++ heartbeat_of env b ∷ [], some (negsuc 0)))
unfolding heartbeat_loop
heartbeats_until_failure env [] b later ok failed = (refl, rw failed)
heartbeats_until_failure env (x ∷ bs) b later ok failed =
    let (runs, stops) = heartbeats_until_failure env bs b later ok.1 failed in
    (rw (ok.0, runs), rw (ok.0, stops))

-- The threads of a configuration.
abbrev pub threads_of : Config → List Thread
threads_of c =
    (if c.userled || c.dummy then th_canrx ∷ [] else [])
    ++ (if c.buttons || c.dummy then th_button ∷ [] else [])

-- With a driver that opens and threads that can be created, `main` has the receive thread if there
-- are LEDs or played ones, the button thread if there are buttons or played ones, and becomes the
-- heartbeat loop.
cannode_main_runs :
    (c : Config) (env : CannodeEnv) (can_init_ret : ℤ) (bs : List Beat)
    → ltb_ℤ can_init_ret (pos 0) ≡ false
    → cannode_main c env can_init_ret (pos 0) (pos 0) bs ≡ (record {
      threads = threads_of c;
      sent = (heartbeat_loop env bs).0;
      returned = (heartbeat_loop env bs).1;
    })
unfolding cannode_main
cannode_main_runs c env can_init_ret bs h = rw h (elim (Bool-cases (c.userled || c.dummy)) [
  | inl r ↦ (elim (Bool-cases (c.buttons || c.dummy)) [ inl b ↦ rw (r, b) | inr b ↦ rw (r, b) ])
  | inr r ↦ (elim (Bool-cases (c.buttons || c.dummy)) [ inl b ↦ rw (r, b) | inr b ↦ rw (r, b) ])
])

-- A `main` that has not returned has opened the driver and has all the threads of its configuration.
cannode_main_needs :
    (c : Config) (env : CannodeEnv) (can_init_ret create_rx_ret create_button_ret : ℤ)
    (bs : List Beat)
    → (cannode_main c env can_init_ret create_rx_ret create_button_ret bs).returned ≡ none
    → (ltb_ℤ can_init_ret (pos 0) ≡ false)
      × ((cannode_main c env can_init_ret create_rx_ret create_button_ret bs).threads
          ≡ threads_of c)
unfolding cannode_main
cannode_main_needs c env can_init_ret create_rx_ret create_button_ret bs h = ground arith
