-- ===== src/Cannode/Network.antt =====
-- Nodes of apps/mini_cannode on one bus, with a master that is not one of them: each node is its loop of
-- `main`, its button thread and its receive thread, and the threads of all nodes take turns in any order.
-- A frame that is sent waits at every other node until that node reads it.
pub mod Messages
pub mod Leds
pub mod Drain
pub mod Log
pub mod Merge
pub mod Bus
use railab_nuttx_code.Prelude.{
  ℕ, ◌<◌, ◌%◌, ◌≡◌, ◌≢◌, true, false, Bool, List, [], ◌∷◌, ◌++◌, Option, none, some, ◌⊎◌, ℤ, pos,
  ltb_ℤ, done, if◌then◌else◌, ◌==◌,
}
use railab_nuttx_code.Cannode.Message.{
  CannodeEnv, CanMsg, IsMsg, canmsg_heartbeat_id, canmsg_button_id,
}
use railab_nuttx_code.Cannode.Driver.{CanDriver}
use railab_nuttx_code.Cannode.Receive.{Effect, rx_round}
use railab_nuttx_code.Cannode.Button.{Press, button_round}
use railab_nuttx_code.Cannode.Main.{Beat, heartbeat_loop}

-- A node: the frames that wait for can_read, the oldest first, what thread_rx has done, the `revents` of
-- the button thread, the result of `main` if it has returned, and whether thread_rx comes to its loop,
-- which it does if the build has it, pthread_create succeeds, and led_init does. No data of the program:
-- what the system returned in the rounds of `main` and of the button thread whose can_send succeeded.
pub record Node (Frame : Type 0) : Type 0 where
  pub inbox : List Frame
  pub effects : List Effect
  pub revents : ℕ
  pub returned : Option ℤ
  pub listening : Bool
  pub beats : List Beat
  pub presses : List Press

-- The nodes, and no data of any program: the messages whose frames were sent, the oldest first, and those
-- of them that the master sent.
pub record Network (Frame : Type 0) : Type 0 where
  pub nodes : ℕ → Node Frame
  pub log : List CanMsg
  pub orders : List CanMsg

module _ {Frame : Type 0} where
  abbrev pub update : ℕ → Node Frame → (ℕ → Node Frame) → ℕ → Node Frame
  update k n nodes j = if j == k then n else nodes j

  -- Every node gets the frames that the bus brings it.
  abbrev pub deliver : (ℕ → List Frame) → (ℕ → Node Frame) → ℕ → Node Frame
  deliver arrived nodes j = record (nodes j) { inbox = (nodes j).inbox ++ arrived j }

  abbrev pub transmit : CanMsg → (ℕ → List Frame) → Network Frame → Network Frame
  transmit m arrived s = record s { nodes = deliver arrived s.nodes; log = s.log ++ m ∷ [] }

  abbrev pub order : CanMsg → Network Frame → Network Frame
  order m s = record s { orders = s.orders ++ m ∷ [] }

  abbrev pub set_node : ℕ → Node Frame → Network Frame → Network Frame
  set_node k n s = record s { nodes = update k n s.nodes }

  -- A network before its first step.
  pub record IsFresh (s : Network Frame) : Type 0 where
    pub inbox : (j : ℕ) → (s.nodes j).inbox ≡ []
    pub effects : (j : ℕ) → (s.nodes j).effects ≡ []
    pub beats : (j : ℕ) → (s.nodes j).beats ≡ []
    pub presses : (j : ℕ) → (s.nodes j).presses ≡ []
    pub log : s.log ≡ []
    pub orders : s.orders ≡ []

-- A node whose thread_rx reads: it is in its loop, and `main` has not returned. When `main` returns the
-- task ends, and its threads with it.
abbrev pub Hears : {Frame : Type 0} → Node Frame → Type 0
Hears n = (n.listening ≡ true) × (n.returned ≡ none)

-- What the master sends: well-formed messages with a byte, with any identifier.
pub record IsOrder (m : CanMsg) : Type 0 where
  pub msg : IsMsg m
  pub some_byte : 0 < m.len

-- The bus brings a frame to every node, but to its sender only if the driver loops it back.
abbrev pub Brings :
    (d : CanDriver) (ports : ℕ → d.Port)
    → d.Frame
    → (sender : Option ℕ) → (ℕ → List d.Frame)
    → Type 0
Brings d ports f sender arrived =
    (j : ℕ)
    → ((g : d.Frame) × (arrived j ≡ g ∷ []) × d.Arrives f g × (d.port_of g ≡ ports j))
      ⊎ ((arrived j ≡ []) × (sender ≡ some j))

-- `ports j` is the driver that node `j` was built with, `master` the one of the master.
module _ (d : CanDriver) (ports : ℕ → d.Port) (master : d.Port) (userled : Bool) (pollin : ℕ)
    (env : ℕ → CannodeEnv) where
  pub data Step (s : Network d.Frame) : Network d.Frame → Type 0 where
    -- A round of `main` whose can_send succeeds, and one whose can_send fails.
    main_beats :
        (k : ℕ) (b : Beat) (m : CanMsg) (f : d.Frame) (arrived : ℕ → List d.Frame)
        → (s.nodes k).returned ≡ none
        → heartbeat_loop (env k) (b ∷ []) ≡ (m ∷ [], none)
        → d.to_frame (ports k) m ≡ done f
        → Brings d ports f (some k) arrived
        → Step s (
            transmit m arrived
              (set_node k (record (s.nodes k) { beats = (s.nodes k).beats ++ b ∷ [] }) s))
    main_returns :
        (k : ℕ) (b : Beat) (m : CanMsg) (ret : ℤ)
        → (s.nodes k).returned ≡ none
        → heartbeat_loop (env k) (b ∷ []) ≡ (m ∷ [], some ret)
        → Step s (set_node k (record (s.nodes k) { returned = some ret }) s)
    -- A round of thread_button that has nothing to send or whose can_send fails, and one that sends.
    button_keeps :
        (k : ℕ) (p : Press) (revents : ℕ) (ms : List CanMsg)
        → (s.nodes k).returned ≡ none
        → button_round pollin (env k) (s.nodes k).revents p ≡ (revents, ms)
        → Step s (set_node k (record (s.nodes k) { revents = revents }) s)
    button_sends :
        (k : ℕ) (p : Press) (revents : ℕ) (m : CanMsg) (f : d.Frame) (arrived : ℕ → List d.Frame)
        → (s.nodes k).returned ≡ none
        → button_round pollin (env k) (s.nodes k).revents p ≡ (revents, m ∷ [])
        → d.to_frame (ports k) m ≡ done f
        → Brings d ports f (some k) arrived
        → Step s (
            transmit m arrived (
              set_node k
                (record (s.nodes k) { revents = revents; presses = (s.nodes k).presses ++ p ∷ [] })
                s))
    -- The master sends a message.
    master_sends :
        (m : CanMsg) (f : d.Frame) (arrived : ℕ → List d.Frame)
        → IsOrder m
        → d.to_frame master m ≡ done f
        → Brings d ports f none arrived
        → Step s (transmit m arrived (order m s))
    -- A round of thread_rx on a frame, and one whose can_read fails.
    rx_reads :
        (k : ℕ) (g : d.Frame) (rest : List d.Frame) (msg : CanMsg) (ret : ℤ)
        → Hears (s.nodes k)
        → (s.nodes k).inbox ≡ g ∷ rest
        → d.of_frame g ≡ done msg
        → ltb_ℤ (pos 0) ret ≡ true
        → Step s (
            set_node k
              (record (s.nodes k) {
                inbox = rest;
                effects = (s.nodes k).effects ++ rx_round userled (env k) ret msg;
              })
              s)
    rx_fails :
        (k : ℕ) (msg : CanMsg) (ret : ℤ)
        → Hears (s.nodes k)
        → ltb_ℤ (pos 0) ret ≡ false
        → Step s (
            set_node k
              (record (s.nodes k) {
                effects = (s.nodes k).effects ++ rx_round userled (env k) ret msg;
              })
              s)

  pub data Reach : Network d.Frame → Type 0 where
    started : {s : Network d.Frame} → IsFresh s → Reach s
    later : {s t : Network d.Frame} → Reach s → Step s t → Reach t
