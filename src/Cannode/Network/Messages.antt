-- ===== src/Cannode/Network/Messages.antt =====
-- The messages of a network: what they ask a node, which frames of them wait, and that the nodes' own ask
-- for nothing.
use railab_nuttx_code.Prelude.{
  ℕ, ◌+◌, ◌<◌, ◌≡◌, refl, sym, Bool, List, [], ◌∷◌, ◌++◌, Option, inl, inr, ℤ, pos, ltb_ℤ,
  if◌then◌else◌, bit_and, ◌==◌, ==_iff, get_or, Bool-cases, arith,
}
use mathlib.Core.Path.{subst}
use mathlib.Core.List.{append_assoc}
use railab_nuttx_code.Cannode.Message.{
  CannodeEnv, CanMsg, IsMsg, IsNodeId, heartbeat_msg, button_msg, canmsg_led_id,
}
use railab_nuttx_code.Cannode.Message.Ids.{messages_decode}
use railab_nuttx_code.Cannode.Driver.{CanDriver, Made}
use railab_nuttx_code.Cannode.Receive.{Effect}
use railab_nuttx_code.Cannode.Receive.Filter.{led_effect}
use railab_nuttx_code.Cannode.Button.{Press, button_get, button_round}
use railab_nuttx_code.Cannode.Main.Heartbeats.{heartbeat_of}
use railab_nuttx_code.Cannode.Main.{Beat, heartbeat_loop}
use railab_nuttx_code.Cannode.Network.{Node, update}

-- What a message asks a node to do.
abbrev pub asked : Bool → CannodeEnv → CanMsg → List Effect
asked userled env m =
    if m.id == env.nodeid + canmsg_led_id
    then led_effect userled (get_or m.payload 0 0) ∷ []
    else []

abbrev pub all_asked : Bool → CannodeEnv → List CanMsg → List Effect
all_asked userled env [] = []
all_asked userled env (m ∷ ms) = asked userled env m ++ all_asked userled env ms

pub all_asked-append :
    (userled : Bool) (env : CannodeEnv) (ms ns : List CanMsg)
    → all_asked userled env (ms ++ ns) ≡ all_asked userled env ms ++ all_asked userled env ns
all_asked-append userled env [] ns = refl
all_asked-append userled env (m ∷ ms) ns =
    rw (all_asked-append userled env ms ns) (sym (append_assoc (asked userled env m) _ _))

-- A property of every node, after a change of one.
pub all-update {ℓ} :
    {Frame : Type 0} (P : ℕ → Node Frame → Type ℓ) (k : ℕ) (n : Node Frame) (nodes : ℕ → Node Frame)
    → P k n
    → ((j : ℕ) → P j (nodes j))
    → (j : ℕ) → P j (update k n nodes j)
all-update P k n nodes new old j = elim (Bool-cases (j == k)) [
  | inl same ↦ rw same (subst (λ x. P x n) (sym ((==_iff j k).0 same)) new)
  | inr other ↦ rw other (old j)
]

-- A message that is well formed, and has a byte.
pub record IsFilled (m : CanMsg) : Type 0 where
  pub msg : IsMsg m
  pub some_byte : 0 < m.len

module _ (d : CanDriver) where
  -- The frames that wait are those of some messages, in order.
  abbrev pub Pending : List CanMsg → List d.Frame → Type 0
  Pending [] [] = Unit
  Pending [] (g ∷ gs) = ⊥
  Pending (m ∷ ms) [] = ⊥
  Pending (m ∷ ms) (g ∷ gs) =
      IsFilled m × ((f : d.Frame) × Made d m f × d.Arrives f g) × Pending ms gs

  pub Pending-snoc :
      (ms : List CanMsg) (gs : List d.Frame) (m : CanMsg) (f g : d.Frame)
      → Pending ms gs
      → IsFilled m
      → Made d m f
      → d.Arrives f g
      → Pending (ms ++ m ∷ []) (gs ++ g ∷ [])
  Pending-snoc [] [] m f g p k e a = (k, (f, e, a), tt)
  Pending-snoc [] (x ∷ gs) m f g p k e a = absurd p
  Pending-snoc (n ∷ ms) [] m f g p k e a = absurd p
  Pending-snoc (n ∷ ms) (x ∷ gs) m f g p k e a = (p.0, p.1, Pending-snoc ms gs m f g p.2 k e a)

-- The two kinds of message that the threads of a node send ask no node for anything.
abbrev pub IsQuiet : CanMsg → Type 0
IsQuiet m =
    IsFilled m × ((userled : Bool) (e : CannodeEnv) → IsNodeId e.nodeid → asked userled e m ≡ [])

-- What a round of `main` and a round of the button thread send.
pub loop_message :
    (env : CannodeEnv) (b : Beat) (m : CanMsg) (returned : Option ℤ)
    → heartbeat_loop env (b ∷ []) ≡ (m ∷ [], returned)
    → heartbeat_of env b ≡ m
unfolding heartbeat_loop
loop_message env b m returned e = elim (Bool-cases (ltb_ℤ b.send_ret (pos 0))) [
  | inl failed ↦ cc (rw failed at e)
  | inr sent ↦ cc (rw sent at e)
]

pub round_message :
    (env : CannodeEnv) (pollin revents revents' : ℕ) (p : Press) (m : CanMsg)
    → button_round pollin env revents p ≡ (revents', m ∷ [])
    → button_msg env (button_get p.read_ret p.filled) ≡ m
unfolding button_round
round_message env pollin revents revents' p m e =
    let now = if ltb_ℤ p.poll_ret (pos 0) then revents else p.reported in
    elim (Bool-cases (bit_and now pollin == 0)) [
      | inl quiet ↦ absurd (cc (rw quiet at e))
      | inr pressed ↦ cc (rw pressed at e)
    ]

module _ (env : CannodeEnv) (h : IsNodeId env.nodeid) where
  heartbeat-IsQuiet : (ts : ℕ) → IsQuiet (heartbeat_msg env ts)
  unfolding heartbeat_msg
  heartbeat-IsQuiet ts =
      let (beat, _, _, _, id, _) = messages_decode env ts 0 h in
      (record { msg = beat; some_byte = omega arith }, λ userled e he. ground (arith, he, id))

  button-IsQuiet : (sample : ℕ) → IsQuiet (button_msg env sample)
  unfolding button_msg
  button-IsQuiet sample =
      let (_, button, _, _, _, id) = messages_decode env 0 sample h in
      (record { msg = button; some_byte = omega arith }, λ userled e he. ground (arith, he, id))

  pub loop-IsQuiet :
      (b : Beat) (m : CanMsg) (returned : Option ℤ)
      → heartbeat_loop env (b ∷ []) ≡ (m ∷ [], returned)
      → IsQuiet m
  loop-IsQuiet b m returned e =
      subst IsQuiet (loop_message env b m returned e) (heartbeat-IsQuiet _)

  pub round-IsQuiet :
      (pollin revents revents' : ℕ) (p : Press) (m : CanMsg)
      → button_round pollin env revents p ≡ (revents', m ∷ [])
      → IsQuiet m
  round-IsQuiet pollin revents revents' p m e =
      subst IsQuiet (round_message env pollin revents revents' p m e) (button-IsQuiet _)
