-- ===== src/Cannode/Tests/Network.antt =====
-- A network of two nodes: the first is built with the character device, as the master is, and the second
-- with SocketCAN. The master asks the first for its LED, and the second reports a button.
use railab_nuttx_code.Prelude.{
  map, All, ℕ, ◌≡◌, refl, true, [], ◌∷◌, ◌++◌, List, none, inl, pos, ◌==◌, if◌then◌else◌, arith,
  length, drop, Bool-cases, inr,
}
use railab_nuttx_code.Cannode.Message.{
  CannodeEnv, CanMsg, IsNodeId, memcpy, button_msg, can_data_max,
}
use railab_nuttx_code.Cannode.Driver.{CanDriver}
use railab_nuttx_code.Cannode.Chardev.{CharFrame, char_to_frame, char_of_frame}
use railab_nuttx_code.Cannode.Sock.{SockFrame, sock_to_frame}
use railab_nuttx_code.Cannode.Mixed.{
  Build, chardev, socketcan, AnyFrame, AnyArrives, build_of, char_frame, sock_frame, any_to_frame,
  any_of_frame, mixed_driver,
}
use railab_nuttx_code.Cannode.Receive.{uled_set_all}
use railab_nuttx_code.Cannode.Button.{button_round, button_get}
use railab_nuttx_code.Cannode.Network.{
  IsFresh, IsOrder, Network, Reach, started, later, master_sends, button_sends, rx_reads,
}
use railab_nuttx_code.Cannode.Network.Messages.{Pending, all_asked}
use railab_nuttx_code.Cannode.Network.Leds.{nodes_follow_requests}
use railab_nuttx_code.Cannode.Network.Log.{with_id, time_in, buttons_in}
use railab_nuttx_code.Cannode.Network.Merge.{Merge}
use railab_nuttx_code.Cannode.Network.Bus.{bus_tells_node}
use railab_nuttx_code.Cannode.Message.{le_bytes, heartbeat_msg, can_get_timestamp}
use railab_nuttx_code.Cannode.Main.{heartbeat_loop}
use railab_nuttx_code.Cannode.Network.{main_beats}
use railab_nuttx_code.Cannode.Network.Drain.{Run, requests_are_met}
use railab_nuttx_code.Cannode.Tests.{
  node1, node2, code, code-CodesLength, junk, request, request-IsMsg, request_frame, button_frame,
  arrived_request, press, beat,
}

abbrev driver : CanDriver
driver = mixed_driver code code code-CodesLength code-CodesLength junk junk refl refl

abbrev ports : ℕ → Build
ports j = if j == 1 then socketcan else chardev

-- The same frame as SocketCAN has it, and as the driver of a node has it.
abbrev as_sock : CharFrame → SockFrame
as_sock f = record { can_id = f.ch_id; can_dlc = f.ch_dlc; frame_data = f.cm_data }

abbrev at_node : ℕ → CharFrame → AnyFrame
at_node j f = if j == 1 then sock_frame (as_sock f) else char_frame f

comes :
    (j : ℕ) (f : CharFrame) (g : AnyFrame)
    → length f.cm_data ≡ can_data_max
    → AnyArrives g (char_frame f)
    → (h : AnyFrame) × (at_node j f ∷ [] ≡ h ∷ []) × AnyArrives g h × (build_of h ≡ ports j)
comes j f g size a = elim (Bool-cases (j == 1)) [
  | inl second ↦ (
    sock_frame (as_sock f),
    rw second,
    record { id = a.id; dlc = a.dlc; size = size; bytes = a.bytes },
    rw second,
  )
  | inr other ↦ (char_frame f, rw other, a, rw other)
]

abbrev env : ℕ → CannodeEnv
env j = if j == 1 then node2 else node1

env-IsNodeId : (j : ℕ) → IsNodeId (env j).nodeid
env-IsNodeId j = ground arith

abbrev quiet : Network AnyFrame
quiet = record {
  nodes = λ j. record {
    inbox = [];
    effects = [];
    revents = 0;
    returned = none;
    beats = [];
    presses = [];
    listening = true;
  };
  log = [];
  orders = [];
}

quiet-IsFresh : IsFresh quiet
quiet-IsFresh = record {
  inbox = λ j. refl;
  effects = λ j. refl;
  beats = λ j. refl;
  presses = λ j. refl;
  log = refl;
  orders = refl;
}

request-IsOrder : IsOrder request
request-IsOrder = record { msg = request-IsMsg; some_byte = omega arith }

-- The request is on the bus.
requested : (s : Network AnyFrame) × Reach driver ports chardev true 1 env s
unfolding any_to_frame char_to_frame memcpy
requested = (
  _,
  later (started {s = quiet} (quiet-IsFresh)) (
      master_sends request (char_frame (request_frame request.payload))
        (λ j. at_node j (request_frame arrived_request.payload) ∷ []) request-IsOrder refl
        (λ j. inl (
          comes j (request_frame arrived_request.payload)
            (char_frame (request_frame request.payload)) refl
            (record { id = refl; dlc = refl; size = refl; bytes = refl })))),
)

-- The frame of the button message as cannode_sock.c makes it: behind the bytes in use is what the stack
-- held.
abbrev sent_button : SockFrame
sent_button = record { can_id = 0x202; can_dlc = 1; frame_data = 1 ∷ drop 1 junk }

-- The second node reports a button, and its driver loops the frame back.
pressed : (s : Network AnyFrame) × Reach driver ports chardev true 1 env s
unfolding requested any_to_frame sock_to_frame memcpy button_round button_get button_msg
pressed = (
  _,
  later requested.1 (
      button_sends 1 (press (pos 1) 1) 0 (button_msg node2 1) (sock_frame sent_button)
        (λ j. at_node j button_frame ∷ []) refl refl refl
        (λ j. inl (
          comes j button_frame (sock_frame sent_button) refl
            (record { id = refl; dlc = refl; size = refl; bytes = refl })))),
)

-- The first node reads the request.
read_out : (s : Network AnyFrame) × Reach driver ports chardev true 1 env s
unfolding requested pressed any_of_frame char_of_frame memcpy
read_out = (
  _,
  later pressed.1 (
      rx_reads 0 (char_frame (request_frame arrived_request.payload)) (char_frame button_frame ∷ [])
        arrived_request (pos 12) (refl, refl) refl refl refl),
)

nodes_follow_requests_example :
    (waiting : List CanMsg) × Pending driver waiting (read_out.0.nodes 0).inbox
    × ((read_out.0.nodes 0).effects ++ all_asked true node1 waiting ≡ uled_set_all 1 ∷ [])
unfolding read_out pressed requested button_msg
nodes_follow_requests_example =
    nodes_follow_requests driver true env env-IsNodeId ports chardev 1 read_out.1 0

requests_are_met_example :
    (t : Network AnyFrame) × Run driver ports chardev true 1 env requested.0 t
    × (t.log ≡ request ∷ [])
    × All
        (λ j.
          ((t.nodes j).inbox ≡ []) × ((t.nodes j).effects ≡ all_asked true (env j) (request ∷ [])))
        (0 ∷ 1 ∷ [])
unfolding requested
requests_are_met_example =
    requests_are_met driver ports chardev true 1 env env-IsNodeId (0 ∷ 1 ∷ []) requested.1
      ((refl, refl), ((refl, refl), tt))

node2-alone : (j : ℕ) → (env j).nodeid ≡ node2.nodeid → j ≡ 1
node2-alone j e = ground arith

abbrev heartbeat_frame : CharFrame
heartbeat_frame = record (request_frame (le_bytes 8 1000000)) { ch_id = 0x201; ch_dlc = 8 }

-- The second node sends a heartbeat after a second.
beaten : (s : Network AnyFrame) × Reach driver ports chardev true 1 env s
unfolding pressed requested any_to_frame sock_to_frame memcpy heartbeat_loop heartbeat_msg
    can_get_timestamp
beaten = (
  _,
  later pressed.1 (
      main_beats 1 (beat 1 (pos 16)) (heartbeat_msg node2 1000000)
        (sock_frame (as_sock heartbeat_frame)) (λ j. at_node j heartbeat_frame ∷ []) refl refl refl
        (λ j. inl (
          comes j heartbeat_frame (sock_frame (as_sock heartbeat_frame)) refl
            (record { id = refl; dlc = refl; size = refl; bytes = refl })))),
)

bus_tells_node_example :
    Merge (1000000 ∷ []) [] (map time_in (with_id 0x201 beaten.0.log))
    × Merge (1 ∷ []) [] (map buttons_in (with_id 0x202 beaten.0.log))
unfolding beaten pressed requested can_get_timestamp button_get
bus_tells_node_example =
    bus_tells_node driver ports chardev true 1 env env-IsNodeId 1 node2-alone beaten.1
