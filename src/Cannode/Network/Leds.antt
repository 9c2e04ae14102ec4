-- ===== src/Cannode/Network/Leds.antt =====
-- What the nodes of a network do is what the master asked them to.
use railab_nuttx_code.Prelude.{
  ℕ, ◌+◌, ◌≡◌, refl, ap, true, false, Bool, List, [], ◌∷◌, ◌++◌, append-nil, Option, none, some,
  ◌⊎◌, inl, inr, ℤ, pos, ltb_ℤ, done, ◌==◌, ==_iff, Bool-cases,
}
use mathlib.Core.Path.{subst}
use mathlib.Core.List.{append_assoc}
use railab_nuttx_code.Cannode.Message.{CannodeEnv, CanMsg, IsNodeId, canmsg_led_id}
use railab_nuttx_code.Cannode.Driver.{CanDriver, Transfer, Made}
use railab_nuttx_code.Cannode.Receive.{rx_round}
use railab_nuttx_code.Cannode.Receive.Filter.{led_request_acts}
use railab_nuttx_code.Cannode.Receive.Traffic.{carried_ignored}
use railab_nuttx_code.Cannode.Button.{Press}
use railab_nuttx_code.Cannode.Main.{Beat}
use railab_nuttx_code.Cannode.Network.{
  Node, Network, transmit, order, set_node, Brings, Step, main_beats, main_returns, button_keeps,
  button_sends, master_sends, rx_reads, rx_fails, Reach, started, later,
}
use railab_nuttx_code.Cannode.Network.Messages.{
  asked, all_asked, all_asked-append, all-update, IsFilled, Pending, Pending-snoc, loop-IsQuiet,
  round-IsQuiet,
}

failed_read_idle :
    (userled : Bool) (env : CannodeEnv) (ret : ℤ) (msg : CanMsg)
    → ltb_ℤ (pos 0) ret ≡ false
    → rx_round userled env ret msg ≡ []
unfolding rx_round
failed_read_idle userled env ret msg failed = rw failed

module _ (d : CanDriver) (userled : Bool) (env : ℕ → CannodeEnv)
    (valid : (j : ℕ) → IsNodeId (env j).nodeid) where
  -- A node against the log: what it has done, and what the messages that wait ask, is what the log asks.
  pub record Follows (log : List CanMsg) (j : ℕ) (n : Node d.Frame) : Type 0 where
    pub msgs : List CanMsg
    pub pending : Pending d msgs n.inbox
    pub told : n.effects ++ all_asked userled (env j) msgs ≡ all_asked userled (env j) log

  hear-Follows :
      (log : List CanMsg) (j : ℕ) (n : Node d.Frame) (m : CanMsg) (f : d.Frame)
      (frames : List d.Frame)
      → IsFilled m
      → Made d m f
      → ((g : d.Frame) × (frames ≡ g ∷ []) × d.Arrives f g)
        ⊎ ((frames ≡ []) × (asked userled (env j) m ≡ []))
      → Follows log j n
      → Follows (log ++ m ∷ []) j (record n { inbox = n.inbox ++ frames })
  hear-Follows log j n m f frames k e (inl (g, one, a)) w = record {
    msgs = w.msgs ++ m ∷ [];
    pending = rw one (Pending-snoc d w.msgs n.inbox m f g w.pending k e a);
    told =
        rw
          (
            all_asked-append userled (env j) w.msgs (m ∷ []),
            all_asked-append userled (env j) log (m ∷ []),
            ← append_assoc,
          )
          (ap (λ l. l ++ all_asked userled (env j) (m ∷ [])) w.told);
  }
  hear-Follows log j n m f frames k e (inr (nothing, quiet)) w = record {
    msgs = w.msgs;
    pending = rw (nothing, append-nil) w.pending;
    told = rw (all_asked-append userled (env j) log (m ∷ []), quiet, append-nil) w.told;
  }

  -- One read of a waiting frame does what its message asks.
  read_acts :
      (j : ℕ) (m msg : CanMsg) (f g : d.Frame) (ret : ℤ)
      → IsFilled m
      → Made d m f
      → d.Arrives f g
      → d.of_frame g ≡ done msg
      → ltb_ℤ (pos 0) ret ≡ true
      → rx_round userled (env j) ret msg ≡ asked userled (env j) m
  read_acts j m msg f g ret k sends travels receives got =
      let t : Transfer d m msg = record {
        frame = f;
        arrived = g;
        sends = sends;
        travels = travels;
        receives = receives;
      } in
      elim (Bool-cases (m.id == (env j).nodeid + canmsg_led_id)) [
        | inl own ↦ rw own (
            led_request_acts d userled (env j) ret m msg (valid j) k.msg ((==_iff _ _).0 own)
              k.some_byte t got)
        | inr other ↦ rw other (
            carried_ignored d userled (env j) ret m msg (valid j) k.msg
              (λ e. cc (other, (==_iff _ _).1 e)) t)
      ]

  read-Follows :
      (log : List CanMsg) (j : ℕ) (n : Node d.Frame) (msgs : List CanMsg) (g : d.Frame)
      (rest : List d.Frame) (msg : CanMsg) (ret : ℤ)
      → Pending d msgs (g ∷ rest)
      → n.effects ++ all_asked userled (env j) msgs ≡ all_asked userled (env j) log
      → d.of_frame g ≡ done msg
      → ltb_ℤ (pos 0) ret ≡ true
      → Follows log j
          (record n { inbox = rest; effects = n.effects ++ rx_round userled (env j) ret msg })
  read-Follows log j n [] g rest msg ret p told receives got = absurd p
  read-Follows log j n (m ∷ ms) g rest msg ret (k, (f, sends, travels), p) told receives got =
      record {
        msgs = ms;
        pending = p;
        told = rw (read_acts j m msg f g ret k sends travels receives got, append_assoc) told;
      }

  module _ (ports : ℕ → d.Port) (master : d.Port) (pollin : ℕ) where
    abbrev pub AllFollow : Network d.Frame → Type 0
    AllFollow s = (j : ℕ) → Follows s.log j (s.nodes j)

    transmit-AllFollow :
        (s : Network d.Frame) (m : CanMsg) (f : d.Frame) (sender : Option ℕ)
        (arrived : ℕ → List d.Frame)
        → IsFilled m
        → Made d m f
        → Brings d ports f sender arrived
        → ((j : ℕ) → sender ≡ some j → asked userled (env j) m ≡ [])
        → AllFollow s
        → AllFollow (transmit m arrived s)
    transmit-AllFollow s m f sender arrived k e brings quiet w j =
        let heard : ((g : d.Frame) × (arrived j ≡ g ∷ []) × d.Arrives f g)
            ⊎ ((arrived j ≡ []) × (asked userled (env j) m ≡ [])) =
          elim (brings j) [
            | inl (g, one, a, _) ↦ inl (g, one, a)
            | inr (nothing, own) ↦ inr (nothing, quiet j own)
          ] in
        hear-Follows s.log j (s.nodes j) m f (arrived j) k e heard (w j)

    set_node-AllFollow :
        (s : Network d.Frame) (k : ℕ) (n : Node d.Frame)
        → Follows s.log k n
        → AllFollow s
        → AllFollow (set_node k n s)
    set_node-AllFollow s k n new w = all-update (Follows s.log) k n s.nodes new w

    -- A change of a node that neither reads nor acts.
    same-Follows :
        (log : List CanMsg) (j : ℕ) (n : Node d.Frame) (revents : ℕ) (returned : Option ℤ)
        (beats : List Beat) (presses : List Press)
        → Follows log j n
        → Follows log j
            (record n { revents = revents; returned = returned; beats = beats; presses = presses })
    same-Follows log j n revents returned beats presses w = record {
      msgs = w.msgs;
      pending = w.pending;
      told = w.told;
    }

    pub Step-AllFollow :
        {s t : Network d.Frame}
        → Step d ports master userled pollin env s t
        → AllFollow s
        → AllFollow t
    Step-AllFollow {s} (main_beats k b m f arrived runs e sends brings) w =
        let (filled, quiet) = loop-IsQuiet (env k) (valid k) b m _ e in
        let n = record (s.nodes k) { beats = (s.nodes k).beats ++ b ∷ [] } in
        transmit-AllFollow (set_node k n s) m f (some k) arrived filled (ports k, sends) brings
          (λ j own. quiet userled (env j) (valid j))
          (set_node-AllFollow s k n (same-Follows s.log k (s.nodes k) _ _ _ _ (w k)) w)
    Step-AllFollow {s} (main_returns k b m ret runs e) w =
        set_node-AllFollow s k _ (same-Follows s.log k (s.nodes k) _ _ _ _ (w k)) w
    Step-AllFollow {s} (button_keeps k p revents ms runs e) w =
        set_node-AllFollow s k _ (same-Follows s.log k (s.nodes k) _ _ _ _ (w k)) w
    Step-AllFollow {s} (button_sends k p revents m f arrived runs e sends brings) w =
        let (filled, quiet) = round-IsQuiet (env k) (valid k) pollin _ _ p m e in
        let n = record (s.nodes k) { revents = revents; presses = (s.nodes k).presses ++ p ∷ [] } in
        transmit-AllFollow (set_node k n s) m f (some k) arrived filled (ports k, sends) brings
          (λ j own. quiet userled (env j) (valid j))
          (set_node-AllFollow s k n (same-Follows s.log k (s.nodes k) _ _ _ _ (w k)) w)
    Step-AllFollow {s} (master_sends m f arrived k sends brings) w =
        transmit-AllFollow (order m s) m f none arrived
          (record { msg = k.msg; some_byte = k.some_byte }) (master, sends) brings
          (λ j own. absurd (cc (own))) w
    Step-AllFollow {s} (rx_reads k g rest msg ret hears at receives got) w =
        set_node-AllFollow s k _
          (read-Follows s.log k (s.nodes k) (w k).msgs g rest msg ret
            (subst (Pending d (w k).msgs) at (w k).pending) (w k).told receives got)
          w
    Step-AllFollow {s} (rx_fails k msg ret hears failed) w =
        let n = w k in
        let idle = failed_read_idle userled (env k) ret msg failed in
        set_node-AllFollow s k _
          (record { msgs = n.msgs; pending = n.pending; told = rw (idle, append-nil) n.told }) w

    pub Reach-AllFollow :
        {s : Network d.Frame} → Reach d ports master userled pollin env s → AllFollow s
    Reach-AllFollow (started fresh) = λ j. record {
      msgs = [];
      pending = rw (fresh.inbox j) tt;
      told = rw (fresh.effects j, fresh.log) refl;
    }
    Reach-AllFollow (later r st) = Step-AllFollow st (Reach-AllFollow r)

    -- With node identifiers that the build accepts, whatever the threads of the nodes send and in
    -- whatever order they and the master take their steps: in every reachable state each node has done
    -- just what the messages on the bus asked it to, in their order, but for those whose frames still
    -- wait at the node.
    pub nodes_follow_requests :
        {s : Network d.Frame}
        → Reach d ports master userled pollin env s
        → (j : ℕ)
        → (waiting : List CanMsg) × Pending d waiting (s.nodes j).inbox
          × ((s.nodes j).effects ++ all_asked userled (env j) waiting
              ≡ all_asked userled (env j) s.log)
    nodes_follow_requests r j = let w = Reach-AllFollow r j in (w.msgs, w.pending, w.told)
