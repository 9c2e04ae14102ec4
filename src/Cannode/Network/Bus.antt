-- ===== src/Cannode/Network/Bus.antt =====
-- What the messages on the bus tell about a node: the times of its heartbeats and its buttons.
use railab_nuttx_code.Prelude.{
  ℕ, ◌+◌, ◌<◌, ◌≡◌, ◌≢◌, refl, sym, ap, ◌∙◌, Bool, List, [], ◌∷◌, ◌++◌, map, u8, ◌==◌, ==_iff,
  Bool-cases, ◌⊎◌, inl, inr, ℕ_discrete, arith,
}
use mathlib.Core.Path.{subst}
use mathlib.Core.List.{map-append}
use railab_nuttx_code.Cannode.Message.{CannodeEnv, CanMsg, IsNodeId, can_get_timestamp}
use railab_nuttx_code.Cannode.Driver.{CanDriver}
use railab_nuttx_code.Cannode.Button.{Press, button_get}
use railab_nuttx_code.Cannode.Main.{Beat}
use railab_nuttx_code.Cannode.Main.Heartbeats.{heartbeat_of}
use railab_nuttx_code.Cannode.Network.{
  Node, Network, update, set_node, Step, main_beats, main_returns, button_keeps, button_sends,
  master_sends, rx_reads, rx_fails, Reach, started, later,
}
use railab_nuttx_code.Cannode.Network.Messages.{loop_message, round_message}
use railab_nuttx_code.Cannode.Network.Log.{
  time_in, buttons_in, with_id, with_id-snoc_same, with_id-snoc_other, pressed, heartbeat-id,
  button-id, heartbeat_value, button_value,
}
use railab_nuttx_code.Cannode.Network.Merge.{
  Merge, nothing, Merge-snoc_left, Merge-snoc_right, Merge-map,
}

module _ (d : CanDriver) (ports : ℕ → d.Port) (master : d.Port) (userled : Bool) (pollin : ℕ)
    (env : ℕ → CannodeEnv) (valid : (j : ℕ) → IsNodeId (env j).nodeid) (k : ℕ)
    (alone : (j : ℕ) → (env j).nodeid ≡ (env k).nodeid → j ≡ k) where
  -- The messages of the log with an identifier are some of the node and those that the master sent.
  abbrev Sent : (id : ℕ) (orders log own : List CanMsg) → Type 0
  Sent id orders log own = Merge own (with_id id orders) (with_id id log)

  -- The log against the rounds of the node's threads.
  record Tells (orders log : List CanMsg) (n : Node d.Frame) : Type 0 where
    pub beats : Sent ((env k).nodeid + 1) orders log (map (heartbeat_of (env k)) n.beats)
    pub presses : Sent ((env k).nodeid + 2) orders log (map (pressed (env k)) n.presses)

  -- A change of the node that its rounds do not show.
  same-Tells :
      (orders log : List CanMsg) (n n' : Node d.Frame)
      → n'.beats ≡ n.beats
      → n'.presses ≡ n.presses
      → Tells orders log n
      → Tells orders log n'
  same-Tells orders log n n' eb ep w = record { beats = rw eb w.beats; presses = rw ep w.presses }

  beat-Tells :
      (orders log : List CanMsg) (n n' : Node d.Frame) (b : Beat) (m : CanMsg)
      → heartbeat_of (env k) b ≡ m
      → n'.beats ≡ n.beats ++ b ∷ []
      → n'.presses ≡ n.presses
      → Tells orders log n
      → Tells orders (log ++ m ∷ []) n'
  beat-Tells orders log n n' b m e eb ep w =
      let id : m.id ≡ (env k).nodeid + 1 =
        ap (λ (x : CanMsg). x.id) (sym e) ∙ heartbeat-id (env k) _ (valid k) in
      record {
        beats = rw (with_id-snoc_same _ log m id, eb, map-append, e) (Merge-snoc_left m w.beats);
        presses =
            rw
              (
                with_id-snoc_other ((env k).nodeid + 2) log m (λ x. absurd (omega (arith, x, id))),
                ep,
              )
              w.presses;
      }

  press-Tells :
      (orders log : List CanMsg) (n n' : Node d.Frame) (p : Press) (m : CanMsg)
      → pressed (env k) p ≡ m
      → n'.beats ≡ n.beats
      → n'.presses ≡ n.presses ++ p ∷ []
      → Tells orders log n
      → Tells orders (log ++ m ∷ []) n'
  press-Tells orders log n n' p m e eb ep w =
      let id : m.id ≡ (env k).nodeid + 2 =
        ap (λ (x : CanMsg). x.id) (sym e) ∙ button-id (env k) _ (valid k) in
      record {
        beats =
            rw
              (
                with_id-snoc_other ((env k).nodeid + 1) log m (λ x. absurd (omega (arith, x, id))),
                eb,
              )
              w.beats;
        presses =
            rw (with_id-snoc_same _ log m id, ep, map-append, e) (Merge-snoc_left m w.presses);
      }

  other-Tells :
      (orders log : List CanMsg) (n n' : Node d.Frame) (m : CanMsg)
      → m.id ≢ (env k).nodeid + 1
      → m.id ≢ (env k).nodeid + 2
      → n'.beats ≡ n.beats
      → n'.presses ≡ n.presses
      → Tells orders log n
      → Tells orders (log ++ m ∷ []) n'
  other-Tells orders log n n' m no1 no2 eb ep w = record {
    beats = rw (with_id-snoc_other _ log m no1, eb) w.beats;
    presses = rw (with_id-snoc_other _ log m no2, ep) w.presses;
  }

  order-Sent :
      (id : ℕ) (orders log own : List CanMsg) (m : CanMsg)
      → Sent id orders log own
      → Sent id (orders ++ m ∷ []) (log ++ m ∷ []) own
  order-Sent id orders log own m w = elim (ℕ_discrete m.id id) [
    | yes e ↦
        rw (with_id-snoc_same id orders m e, with_id-snoc_same id log m e) (Merge-snoc_right m w)
    | no ne ↦ rw (with_id-snoc_other id orders m ne, with_id-snoc_other id log m ne) w
  ]

  -- A node that was changed: it is node `k`, or node `k` is as it was.
  changed :
      (j : ℕ) (n : Node d.Frame) (nodes : ℕ → Node d.Frame)
      → ((j ≡ k) × (update j n nodes k ≡ n)) ⊎ ((j ≢ k) × (update j n nodes k ≡ nodes k))
  changed j n nodes = elim (Bool-cases (k == j)) [
    | inl same ↦ inl (sym ((==_iff k j).0 same), rw same)
    | inr other ↦ inr (λ e. cc (other, (==_iff k j).1 (sym e)), rw other)
  ]

  quiet-Tells :
      (s : Network d.Frame) (j : ℕ) (n : Node d.Frame)
      → n.beats ≡ (s.nodes j).beats
      → n.presses ≡ (s.nodes j).presses
      → Tells s.orders s.log (s.nodes k)
      → Tells s.orders s.log ((set_node j n s).nodes k)
  quiet-Tells s j n eb ep w = elim (changed j n s.nodes) [
    | inl (e, at) ↦ rw at (
        same-Tells s.orders s.log (s.nodes k) n (eb ∙ ap (λ x. (s.nodes x).beats) e)
          (ep ∙ ap (λ x. (s.nodes x).presses) e) w)
    | inr (ne, at) ↦ rw at w
  ]

  -- The identifier of another node's message.
  foreign :
      (j kind kind' id : ℕ)
      → j ≢ k
      → kind < 256
      → kind' < 256
      → id ≡ (env j).nodeid + kind
      → id ≢ (env k).nodeid + kind'
  foreign j kind kind' id ne lt lt' at e = ne (alone j (omega (arith, valid j, valid k, at, e)))

  Step-Tells :
      {s t : Network d.Frame}
      → Step d ports master userled pollin env s t
      → Tells s.orders s.log (s.nodes k)
      → Tells t.orders t.log (t.nodes k)
  Step-Tells {s} (main_beats j b m f arrived runs e sends brings) w =
      let sent = loop_message (env j) b m _ e in
      let n = record (s.nodes j) { beats = (s.nodes j).beats ++ b ∷ [] } in
      elim (changed j n s.nodes) [
        | inl (own, at) ↦
            beat-Tells s.orders s.log (s.nodes k) _ b m
              (ap (λ x. heartbeat_of (env x) b) (sym own) ∙ sent)
              (ap (λ (x : Node d.Frame). x.beats) at ∙ ap (λ x. (s.nodes x).beats ++ b ∷ []) own)
              (ap (λ (x : Node d.Frame). x.presses) at ∙ ap (λ x. (s.nodes x).presses) own) w
        | inr (ne, at) ↦
            let id : m.id ≡ (env j).nodeid + 1 =
              ap (λ (x : CanMsg). x.id) (sym sent) ∙ heartbeat-id (env j) _ (valid j) in
            other-Tells s.orders s.log (s.nodes k) _ m
              (foreign j 1 1 m.id ne (omega arith) (omega arith) id)
              (foreign j 1 2 m.id ne (omega arith) (omega arith) id)
              (ap (λ (x : Node d.Frame). x.beats) at) (ap (λ (x : Node d.Frame). x.presses) at) w
      ]
  Step-Tells {s} (main_returns j b m ret runs e) w = quiet-Tells s j _ refl refl w
  Step-Tells {s} (button_keeps j p revents ms runs e) w = quiet-Tells s j _ refl refl w
  Step-Tells {s} (button_sends j p revents m f arrived runs e sends brings) w =
      let sent = round_message (env j) pollin _ revents p m e in
      let n = record (s.nodes j) { revents = revents; presses = (s.nodes j).presses ++ p ∷ [] } in
      elim (changed j n s.nodes) [
        | inl (own, at) ↦
            press-Tells s.orders s.log (s.nodes k) _ p m
              (ap (λ x. pressed (env x) p) (sym own) ∙ sent)
              (ap (λ (x : Node d.Frame). x.beats) at ∙ ap (λ x. (s.nodes x).beats) own)
              (ap (λ (x : Node d.Frame). x.presses) at
                ∙ ap (λ x. (s.nodes x).presses ++ p ∷ []) own)
              w
        | inr (ne, at) ↦
            let id : m.id ≡ (env j).nodeid + 2 =
              ap (λ (x : CanMsg). x.id) (sym sent) ∙ button-id (env j) _ (valid j) in
            other-Tells s.orders s.log (s.nodes k) _ m
              (foreign j 2 1 m.id ne (omega arith) (omega arith) id)
              (foreign j 2 2 m.id ne (omega arith) (omega arith) id)
              (ap (λ (x : Node d.Frame). x.beats) at) (ap (λ (x : Node d.Frame). x.presses) at) w
      ]
  Step-Tells {s} (master_sends m f arrived o sends brings) w = record {
    beats = order-Sent _ s.orders s.log _ m w.beats;
    presses = order-Sent _ s.orders s.log _ m w.presses;
  }
  Step-Tells {s} (rx_reads j g rest msg ret hears at receives got) w = quiet-Tells s j _ refl refl w
  Step-Tells {s} (rx_fails j msg ret hears failed) w = quiet-Tells s j _ refl refl w

  Reach-Tells :
      {s : Network d.Frame}
      → Reach d ports master userled pollin env s
      → Tells s.orders s.log (s.nodes k)
  Reach-Tells (started fresh) = record {
    beats = rw (fresh.beats k, fresh.log, fresh.orders) nothing;
    presses = rw (fresh.presses k, fresh.log, fresh.orders) nothing;
  }
  Reach-Tells (later r st) = Step-Tells st (Reach-Tells r)

  -- With node identifiers that the build accepts, in whatever order the threads of the nodes and the
  -- master take their steps, and for a node whose identifier no other node has: in every reachable state
  -- the messages on the bus that have the node's identifier plus 1 carry just the times of the heartbeats
  -- that its `main` sent, in order, and between them, in order, what the master itself sent with this
  -- identifier; and those with its identifier plus 2 the low bytes of the samples that its button thread
  -- sent, and between them what the master itself sent with that one.
  pub bus_tells_node :
      {s : Network d.Frame}
      → Reach d ports master userled pollin env s
      → Merge
          (map (λ (b : Beat). can_get_timestamp b.tv_sec b.tv_nsec) (s.nodes k).beats)
          (map time_in (with_id ((env k).nodeid + 1) s.orders))
          (map time_in (with_id ((env k).nodeid + 1) s.log))
        × Merge
            (map (λ (p : Press). u8 (button_get p.read_ret p.filled)) (s.nodes k).presses)
            (map buttons_in (with_id ((env k).nodeid + 2) s.orders))
            (map buttons_in (with_id ((env k).nodeid + 2) s.log))
  bus_tells_node {s} r =
      let w = Reach-Tells r in
      (
        subst
            (λ l.
              Merge l (map time_in (with_id ((env k).nodeid + 1) s.orders))
                (map time_in (with_id ((env k).nodeid + 1) s.log)))
            (heartbeat_value (env k) (s.nodes k).beats) (Merge-map time_in w.beats),
        subst
            (λ l.
              Merge l (map buttons_in (with_id ((env k).nodeid + 2) s.orders))
                (map buttons_in (with_id ((env k).nodeid + 2) s.log)))
            (button_value (env k) (s.nodes k).presses) (Merge-map buttons_in w.presses),
      )
