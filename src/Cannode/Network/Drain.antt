-- ===== src/Cannode/Network/Drain.antt =====
-- A request on the bus can always come to its LED, at a node that runs.
use railab_nuttx_code.Prelude.{
  ℕ, ◌≡◌, ◌≢◌, false, ℕ_discrete, arith, refl, sym, ap, ◌∙◌, true, Bool, List, [], ◌∷◌, ◌++◌, All,
  All-map, append-nil, pos, done, done-injective, ◌==◌, ==_iff,
}
use mathlib.Core.Path.{subst}
use railab_nuttx_code.Cannode.Message.{CannodeEnv, CanMsg, IsNodeId}
use railab_nuttx_code.Cannode.Driver.{CanDriver, Made}
use railab_nuttx_code.Cannode.Receive.{rx_round}
use railab_nuttx_code.Cannode.Network.{
  Node, Network, update, set_node, Hears, Step, rx_reads, Reach,
}
use railab_nuttx_code.Cannode.Network.Messages.{IsFilled, Pending, all-update, all_asked}
use railab_nuttx_code.Cannode.Network.Leds.{AllFollow, Step-AllFollow, Reach-AllFollow}

update_self :
    {Frame : Type 0} (k : ℕ) (n : Node Frame) (nodes : ℕ → Node Frame) → update k n nodes k ≡ n
update_self k n nodes = let same : (k == k) ≡ true = (==_iff k k).1 refl in rw same

update_other :
    {Frame : Type 0} (k i : ℕ) (n : Node Frame) (nodes : ℕ → Node Frame)
    → i ≢ k
    → update k n nodes i ≡ nodes i
update_other k i n nodes other = let ne : (i == k) ≡ false = ground arith in rw ne

module _ (d : CanDriver) (ports : ℕ → d.Port) (master : d.Port) (userled : Bool) (pollin : ℕ)
    (env : ℕ → CannodeEnv) where
  -- Steps of the network from one state to another.
  pub data Run : Network d.Frame → Network d.Frame → Type 0 where
    here : {s : Network d.Frame} → Run s s
    then_run :
        {s t u : Network d.Frame} → Step d ports master userled pollin env s t → Run t u → Run s u

  -- A frame that waits can be read.
  readable :
      (m : CanMsg) (f g : d.Frame)
      → IsFilled m
      → Made d m f
      → d.Arrives f g
      → (msg : CanMsg) × (d.of_frame g ≡ done msg)
  readable m f g k sends travels =
      let (port, sent) = sends in
      let (f', made, arrive) = d.delivers port m k.msg in
      let same : f ≡ f' = done-injective _ _ (sym sent ∙ made) in
      let (msg, got, _) = arrive g (subst (λ x. d.Arrives x g) same travels) in (msg, got)

  -- The nodes that can read still can.
  abbrev StillHear : (s t : Network d.Frame) → Type 0
  StillHear s t = (i : ℕ) → Hears (s.nodes i) → Hears (t.nodes i)

  -- One node reads all frames that wait for it, and the others stay as they are.
  drain :
      (j : ℕ) (msgs : List CanMsg) (gs : List d.Frame) (s : Network d.Frame)
      → Hears (s.nodes j)
      → Pending d msgs gs
      → (s.nodes j).inbox ≡ gs
      → (t : Network d.Frame) × Run s t
        × (t.log ≡ s.log)
        × StillHear s t
        × ((t.nodes j).inbox ≡ [])
        × ((i : ℕ) → i ≢ j → t.nodes i ≡ s.nodes i)
  drain j [] [] s hears p at = (s, here, refl, λ i h. h, at, λ i other. refl)
  drain j [] (g ∷ gs) s hears p at = absurd p
  drain j (m ∷ msgs) [] s hears p at = absurd p
  drain j (m ∷ msgs) (g ∷ gs) s hears (k, (f, sends, travels), p) at =
      let (msg, got) = readable m f g k sends travels in
      let n = record (s.nodes j) {
        inbox = gs;
        effects = (s.nodes j).effects ++ rx_round userled (env j) (pos 1) msg;
      } in
      let st : Step d ports master userled pollin env s (set_node j n s) =
        rx_reads j g gs msg (pos 1) hears at got refl in
      let read = ap (λ (x : Node d.Frame). x.inbox) (update_self j n s.nodes) in
      let still : StillHear s (set_node j n s) =
        all-update (λ i x. Hears (s.nodes i) → Hears x) j n s.nodes (λ h. h) (λ i h. h) in
      let (t, run, same, hear, empty, others) =
        drain j msgs gs (set_node j n s) (still j hears) p read in
      (
        t,
        then_run st run,
        same,
        λ i h. hear i (still i h),
        empty,
        λ i other. others i other ∙ update_other j i n s.nodes other,
      )

  Run-append : {s t u : Network d.Frame} → Run s t → Run t u → Run s u
  Run-append here r = r
  Run-append (then_run st run) r = then_run st (Run-append run r)

  module _ (valid : (j : ℕ) → IsNodeId (env j).nodeid) where
    Run-AllFollow :
        {s t : Network d.Frame}
        → Run s t
        → AllFollow d userled env valid ports master pollin s
        → AllFollow d userled env valid ports master pollin t
    Run-AllFollow here w = w
    Run-AllFollow (then_run st run) w =
        Run-AllFollow run (Step-AllFollow d userled env valid ports master pollin st w)

    nothing_waits :
        (msgs : List CanMsg) (gs : List d.Frame) → Pending d msgs gs → gs ≡ [] → msgs ≡ []
    nothing_waits [] gs p e = refl
    nothing_waits (m ∷ msgs) [] p e = absurd p
    nothing_waits (m ∷ msgs) (g ∷ gs) p e = cc

    -- The nodes read one after the other.
    drain_each :
        (js : List ℕ) {s : Network d.Frame}
        → AllFollow d userled env valid ports master pollin s
        → All (λ j. Hears (s.nodes j)) js
        → (t : Network d.Frame) × Run s t
          × (t.log ≡ s.log)
          × StillHear s t
          × All (λ j. (t.nodes j).inbox ≡ []) js
    drain_each [] {s} w hears = (s, here, refl, λ i h. h, tt)
    drain_each (n ∷ js) {s} w hears =
        let (t, run, same, hear, empty) = drain_each js w hears.1 in
        let v = Run-AllFollow run w n in
        let (u, run', same', hear', last, others) =
          drain n v.msgs (t.nodes n).inbox t (hear n hears.0) v.pending refl in
        (
          u,
          Run-append run run',
          same' ∙ same,
          λ i h. hear' i (hear i h),
          (
            last,
            All-map (λ j. (t.nodes j).inbox ≡ []) (λ j. (u.nodes j).inbox ≡ []) js
                (λ j e. elim (ℕ_discrete j n) [
                  | yes q ↦ rw q last
                  | no ne ↦ ap (λ (x : Node d.Frame). x.inbox) (others j ne) ∙ e
                ])
                empty,
          ),
        )

    -- With node identifiers that the build accepts: from every reachable state, and for any nodes whose
    -- thread_rx is in its loop and whose `main` has not returned, there are steps that add nothing to the
    -- log, after which no frame waits at any of these nodes and each of them has done exactly what the
    -- messages on the bus asked it to.
    pub requests_are_met :
        (js : List ℕ) {s : Network d.Frame}
        → Reach d ports master userled pollin env s
        → All (λ j. Hears (s.nodes j)) js
        → (t : Network d.Frame) × Run s t
          × (t.log ≡ s.log)
          × All
              (λ j.
                ((t.nodes j).inbox ≡ []) × ((t.nodes j).effects ≡ all_asked userled (env j) s.log))
              js
    requests_are_met js {s} r hears =
        let w = Reach-AllFollow d userled env valid ports master pollin r in
        let (t, run, same, hear, empty) = drain_each js w hears in
        (
          t,
          run,
          same,
          All-map (λ j. (t.nodes j).inbox ≡ []) _ js
              (λ j e.
                let v = Run-AllFollow run w j in
                let none_left = nothing_waits v.msgs (t.nodes j).inbox v.pending e in
                let told : (t.nodes j).effects ++ all_asked userled (env j) []
                    ≡ all_asked userled (env j) s.log =
                  rw (none_left, same) at v.told in
                (e, rw append-nil at told))
              empty,
        )
