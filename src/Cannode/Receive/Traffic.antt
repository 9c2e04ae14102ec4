-- ===== src/Cannode/Receive/Traffic.antt =====
-- What the nodes themselves send on the bus, at the receive thread of another node.
use railab_nuttx_code.Prelude.{
  ℕ, ◌+◌, ◌<◌, ◌≡◌, ◌≢◌, sym, ap, ◌∙◌, Bool, [], ℤ, ◌⊎◌, inl, inr, arith,
}
use railab_nuttx_code.Prelude.Bits.{bit_and_0xf00}
use railab_nuttx_code.Cannode.Message.{
  CannodeEnv, CanMsg, IsMsg, IsNodeId, heartbeat_msg, button_msg, canmsg_led_id,
}
use railab_nuttx_code.Cannode.Message.Ids.{messages_decode}
use railab_nuttx_code.Cannode.Driver.{CanDriver, Transfer}
use railab_nuttx_code.Cannode.Receive.{rx_round}
use railab_nuttx_code.Cannode.Receive.Filter.{Transfer-Carries}

other_ignored :
    (userled : Bool) (env : CannodeEnv) (ret : ℤ) (msg : CanMsg)
    → IsNodeId env.nodeid
    → msg.id < 4294967296
    → msg.id ≢ env.nodeid + canmsg_led_id
    → rx_round userled env ret msg ≡ []
unfolding rx_round
other_ignored userled env ret msg h fits other = ground (arith, bit_and_0xf00 msg.id)

-- A message whose identifier is not a node's and 3.
pub carried_ignored :
    (d : CanDriver) (userled : Bool) (env : CannodeEnv) (ret : ℤ) (sent received : CanMsg)
    → IsNodeId env.nodeid
    → IsMsg sent
    → sent.id ≢ env.nodeid + canmsg_led_id
    → Transfer d sent received
    → rx_round userled env ret received ≡ []
carried_ignored d userled env ret sent received h k other t =
    let c = Transfer-Carries d sent received k t in
    other_ignored userled env ret received h (omega (arith, c.id, k.id)) (λ e. other (sym c.id ∙ e))

-- With node identifiers that the build accepts, no node acts on the heartbeat or on the button message
-- of a node, another or itself, that travels over a driver: whatever can_read returns for it, the round
-- of thread_rx does nothing.
node_messages_ignored :
    (d : CanDriver) (userled : Bool) (sender env : CannodeEnv) (ts sample : ℕ) (ret : ℤ)
    (sent received : CanMsg)
    → IsNodeId sender.nodeid
    → IsNodeId env.nodeid
    → (sent ≡ heartbeat_msg sender ts) ⊎ (sent ≡ button_msg sender sample)
    → Transfer d sent received
    → rx_round userled env ret received ≡ []
node_messages_ignored d userled sender env ts sample ret sent received hs h kind t =
    let (beat, button, _, _, id1, id2) = messages_decode sender ts sample hs in
    elim kind [
      | inl e ↦
          carried_ignored d userled env ret sent received h (rw e beat)
            (λ led. absurd (omega (arith, ap (λ (m : CanMsg). m.id) e, led, id1))) t
      | inr e ↦
          carried_ignored d userled env ret sent received h (rw e button)
            (λ led. absurd (omega (arith, ap (λ (m : CanMsg). m.id) e, led, id2))) t
    ]
