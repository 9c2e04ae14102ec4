-- ===== src/Cannode/Receive/Filter.antt =====
-- Which messages a node acts on, and that an LED request sent over a driver reaches the LED.
use mathlib.Core.Path.{subst}
use railab_nuttx_code.Prelude.{
  ℕ, zero, suc, ◌+◌, ◌^◌, ◌<◌, ◌≡◌, ◌≢◌, refl, ◌∙◌, sym, ap, Bool, true, List, [], ◌∷◌, get_or,
  take, ℤ, pos, ltb_ℤ, if◌then◌else◌, ◌==◌, done-injective, length, arith,
}
use railab_nuttx_code.Prelude.Bits.{bit_and_0xf00}
use railab_nuttx_code.Cannode.Message.{CannodeEnv, CanMsg, IsMsg, IsNodeId, canmsg_led_id}
use railab_nuttx_code.Cannode.Driver.{CanDriver, Carries, Transfer}
use railab_nuttx_code.Cannode.Receive.{Effect, uled_set_all, print_request, rx_round}

-- What an LED request with a first byte is to do.
abbrev pub led_effect : Bool → ℕ → Effect
led_effect userled value =
    if userled then uled_set_all (if value == 0 then 0 else 1) else print_request value

-- With a node identifier that the build accepts, a message that was read makes the node act if it
-- is the node's own LED request, its identifier the node's plus 3: the node then does just what
-- the first byte asks for.
rx_acts :
    (userled : Bool) (env : CannodeEnv) (ret : ℤ) (msg : CanMsg)
    → IsNodeId env.nodeid
    → ltb_ℤ (pos 0) ret ≡ true
    → msg.id ≡ env.nodeid + canmsg_led_id
    → rx_round userled env ret msg ≡ led_effect userled (get_or msg.payload 0 0) ∷ []
unfolding rx_round
rx_acts userled env ret msg h got own = ground (arith, bit_and_0xf00 msg.id)

-- With a node identifier that the build accepts and a message identifier of 32 bits, a round of
-- thread_rx that has any effect had a read with a positive result, and the message was the node's
-- own LED request, its identifier the node's plus 3.
rx_ignores :
    (userled : Bool) (env : CannodeEnv) (ret : ℤ) (msg : CanMsg)
    → IsNodeId env.nodeid
    → msg.id < 2 ^ 32
    → rx_round userled env ret msg ≢ []
    → (ltb_ℤ (pos 0) ret ≡ true) × (msg.id ≡ env.nodeid + canmsg_led_id)
unfolding rx_round
rx_ignores userled env ret msg h fits acts = ground (arith, bit_and_0xf00 msg.id)

first_byte :
    (n : ℕ) (xs ys : List ℕ) → 0 < n → take n xs ≡ take n ys → get_or xs 0 0 ≡ get_or ys 0 0
first_byte zero xs ys h e = absurd (omega arith)
first_byte (suc n) [] [] h e = refl
first_byte (suc n) [] (y ∷ ys) h e = absurd (omega (arith, ap length e))
first_byte (suc n) (x ∷ xs) [] h e = absurd (omega (arith, ap length e))
first_byte (suc n) (x ∷ xs) (y ∷ ys) h e = ap (λ l. get_or l 0 0) e

pub Transfer-Carries :
    (d : CanDriver) (sent received : CanMsg)
    → IsMsg sent
    → Transfer d sent received
    → Carries sent received
Transfer-Carries d sent received k t =
    let (p, sends) = t.sends in
    let (f, made, arrive) = d.delivers p sent k in
    let same : f ≡ t.frame = done-injective _ _ (sym made ∙ sends) in
    let (r, got, c) = arrive t.arrived (subst (λ x. d.Arrives x t.arrived) (sym same) t.travels) in
    subst (λ x. Carries sent x) (done-injective _ _ (sym got ∙ t.receives)) c

-- With a node identifier that the build accepts: a well-formed LED request for the node, with at
-- least one byte, that travels over a driver makes the node act. On the message that can_read
-- makes of whatever frame arrives, with a positive result, the round of thread_rx does just what
-- the request's first byte asks for.
pub led_request_acts :
    (d : CanDriver) (userled : Bool) (env : CannodeEnv) (ret : ℤ) (sent received : CanMsg)
    → IsNodeId env.nodeid
    → IsMsg sent
    → sent.id ≡ env.nodeid + canmsg_led_id
    → 0 < sent.len
    → Transfer d sent received
    → ltb_ℤ (pos 0) ret ≡ true
    → rx_round userled env ret received ≡ led_effect userled (get_or sent.payload 0 0) ∷ []
led_request_acts d userled env ret sent received h k own some_byte t got =
    let c = Transfer-Carries d sent received k t in
    rx_acts userled env ret received h got (c.id ∙ own)
    ∙ ap (λ v. led_effect userled v ∷ [])
        (first_byte sent.len received.payload sent.payload some_byte c.payload)
