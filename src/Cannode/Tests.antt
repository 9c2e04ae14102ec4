-- ===== src/Cannode/Tests.antt =====
-- Tests of the CAN node, and its theorems at concrete inputs.
mod Network
use railab_nuttx_code.Prelude.{
  ℕ, ◌+◌, ◌≡◌, ◌≢◌, refl, true, false, List, [], ◌∷◌, length, ap, inr, none, some, ℤ, pos, negsuc,
  ltb_ℤ, done, ◌↔◌, arith,
}
use railab_nuttx_code.Cannode.Message.{memcpy, CannodeEnv, CanMsg, IsMsg, IsNodeId, button_msg}
use railab_nuttx_code.Cannode.Driver.{Transfer}
use railab_nuttx_code.Cannode.Chardev.{
  CharFrame, CharArrives, CodesLength, char_to_frame, char_of_frame, char_delivers, char_driver,
  char_can_read,
}
use railab_nuttx_code.Cannode.Sock.{
  SockFrame, SockArrives, sock_to_frame, sock_of_frame, sock_can_send, sock_can_read, sock_delivers,
}
use railab_nuttx_code.Cannode.Sock.Errors.{sock_can_send_complete}
use railab_nuttx_code.Cannode.Reads.{IsRead, can_reads_agree}
use railab_nuttx_code.Cannode.Receive.{uled_set_all, rx_round}
use railab_nuttx_code.Cannode.Receive.Filter.{led_request_acts}
use railab_nuttx_code.Cannode.Receive.Extended.{extid_requests_ignored}
use railab_nuttx_code.Cannode.Button.{Press, thread_button}
use railab_nuttx_code.Cannode.Button.Reports.{thread_button-reports}
use railab_nuttx_code.Cannode.Main.{Beat, heartbeat_loop}
use railab_nuttx_code.Cannode.Main.Heartbeats.{heartbeats_until_failure, heartbeat_of}

abbrev node1 : CannodeEnv
node1 = record { nodeid = 0x100 }

node1-IsNodeId : IsNodeId node1.nodeid
node1-IsNodeId = (refl, omega arith)

-- The codes of classic CAN.
abbrev code : ℕ → ℕ
code n = n

code-CodesLength : CodesLength code
code-CodesLength n h = refl

abbrev junk : List ℕ
junk = 9 ∷ 9 ∷ 9 ∷ 9 ∷ 9 ∷ 9 ∷ 9 ∷ 9 ∷ []

-- A request to switch the LED of node 1 on.
abbrev request : CanMsg
request = record { id = 0x103; len = 1; payload = 5 ∷ 0 ∷ 0 ∷ 0 ∷ 0 ∷ 0 ∷ 0 ∷ 0 ∷ [] }

request-IsMsg : IsMsg request
request-IsMsg = record { id = omega arith; len = omega arith; payload = refl }

-- The frame of the request on the bus, and the message made of it: behind the one byte in use the
-- bus brings something else.
abbrev request_frame : List ℕ → CharFrame
request_frame bytes = record {
  ch_id = 0x103;
  ch_rtr = false;
  ch_dlc = 1;
  ch_error = false;
  ch_extid = false;
  ch_tcf = false;
  cm_data = bytes;
}

abbrev request_sock_frame : SockFrame
request_sock_frame = record { can_id = 0x103; can_dlc = 1; frame_data = junk }

abbrev arrived_request : CanMsg
arrived_request = record { id = 0x103; len = 1; payload = 5 ∷ 7 ∷ 7 ∷ 7 ∷ 7 ∷ 7 ∷ 7 ∷ 7 ∷ [] }

request-Transfer :
    Transfer
      (char_driver code code code-CodesLength code-CodesLength false junk junk refl refl)
      request
      arrived_request
unfolding char_to_frame char_of_frame memcpy
request-Transfer = record {
  frame = request_frame request.payload;
  arrived = request_frame arrived_request.payload;
  sends = (tt, refl);
  travels = record { ch_id = refl; ch_dlc = refl; size = refl; cm_data = refl };
  receives = refl;
}

led_request_acts_example : rx_round true node1 (pos 12) arrived_request ≡ uled_set_all 1 ∷ []
led_request_acts_example =
    led_request_acts
      (char_driver code code code-CodesLength code-CodesLength false junk junk refl refl) true node1
      (pos 12) request arrived_request node1-IsNodeId request-IsMsg refl (omega arith)
      request-Transfer refl

request_acts : rx_round true node1 (pos 12) arrived_request ≢ []
unfolding rx_round
request_acts e = absurd (omega (arith, ap length e))

extid_requests_ignored_example :
    (f : SockFrame) × (sock_to_frame code true junk request ≡ done f)
    × ((g : SockFrame)
        → SockArrives f g
        → (r : CanMsg) × (sock_of_frame code junk g ≡ done r)
          × (rx_round true node1 (pos 12) r ≡ []))
extid_requests_ignored_example =
    extid_requests_ignored code code junk junk true node1 (pos 12) request code-CodesLength
      code-CodesLength refl refl node1-IsNodeId request-IsMsg (omega arith)

-- The same frame by either driver.
can_reads_agree_example :
    (o : CanMsg × ℤ) × (char_can_read code request (pos 16) 11 (request_frame junk) ≡ done o)
    × (sock_can_read code request (pos 16) 11 request_sock_frame ≡ done o)
    × IsRead code request (pos 16) 11 (request_frame junk) o
can_reads_agree_example =
    can_reads_agree code request (pos 16) 11 (request_frame junk) request_sock_frame refl
      (record { id = refl; dlc = refl; payload = refl; size = refl })

sock_can_send_complete_example :
    (f : SockFrame) × (r : ℤ) × (sock_can_send code false junk 16 5 request (pos 3) 11
      ≡ done (f, r))
    × ((ltb_ℤ r (pos 0) ≡ false) ↔ (pos 3 ≡ pos 16))
sock_can_send_complete_example =
    sock_can_send_complete code false junk 16 5 request (pos 3) 11 refl request-IsMsg (omega arith)
      (omega arith)

abbrev beat : ℕ → ℤ → Beat
beat n ret = record { tv_sec = n; tv_nsec = 0; send_ret = ret }

heartbeats_until_failure_example :
    (heartbeat_loop node1 (beat 1 (pos 16) ∷ [])
      ≡ (heartbeat_of node1 (beat 1 (pos 16)) ∷ [], none))
    × (heartbeat_loop node1 (beat 1 (pos 16) ∷ beat 2 (negsuc 4) ∷ beat 3 (pos 16) ∷ []) ≡ (
      heartbeat_of node1 (beat 1 (pos 16)) ∷ heartbeat_of node1 (beat 2 (negsuc 4)) ∷ [],
      some (negsuc 0),
    ))
heartbeats_until_failure_example =
    heartbeats_until_failure node1 (beat 1 (pos 16) ∷ []) (beat 2 (negsuc 4)) (beat 3 (pos 16) ∷ [])
      (refl, tt) refl

abbrev press : ℤ → ℕ → Press
press poll_ret filled = record {
  poll_ret = poll_ret;
  reported = 1;
  read_ret = pos 4;
  filled = filled;
}

thread_button-reports_example :
    thread_button 1 node1 (pos 3) 2 (press (pos 1) 6 ∷ press (negsuc 3) 7 ∷ press (pos 1) 8 ∷ [])
    ≡ button_msg node1 6 ∷ button_msg node1 8 ∷ []
thread_button-reports_example =
    thread_button-reports 1 node1 (pos 3) 2
      (press (pos 1) 6 ∷ press (negsuc 3) 7 ∷ press (pos 1) 8 ∷ []) (omega arith)

abbrev node2 : CannodeEnv
node2 = record { nodeid = 0x200 }

-- The frame of a button message of node 2.
abbrev button_frame : CharFrame
button_frame = record (request_frame (1 ∷ 0 ∷ 0 ∷ 0 ∷ 0 ∷ 0 ∷ 0 ∷ 0 ∷ [])) { ch_id = 0x202 }
