-- ===== src/Cannode/Message/Ids.antt =====
-- The identifiers on the bus, and what the bytes of a heartbeat say.
use railab_nuttx_code.Prelude.{
  ℕ, ◌+◌, ◌*◌, ◌/◌, ◌%◌, ◌<◌, ◌≤◌, ◌≡◌, ◌^◌, refl, List, [], ◌∷◌, arith, bit_and,
}
use railab_nuttx_code.Prelude.Bits.{bit_and_0xf00}
use railab_nuttx_code.Cannode.Message.{
  CannodeEnv, can_get_timestamp, heartbeat_msg, button_msg, IsMsg, IsNodeId, canmsg_nodeid_mask,
}

-- The number that little-endian bytes stand for.
abbrev pub le_value : List ℕ → ℕ
le_value [] = 0
le_value (b ∷ bs) = b + 256 * le_value bs

-- With a node identifier that the build accepts both kinds of message are well formed, the mask
-- 0xf00 gives back the node from either identifier, and the rest of the identifier is 1 for a
-- heartbeat and 2 for a button message.
pub messages_decode :
    (env : CannodeEnv) (ts sample : ℕ)
    → IsNodeId env.nodeid
    → IsMsg (heartbeat_msg env ts)
      × IsMsg (button_msg env sample)
      × (bit_and (heartbeat_msg env ts).id canmsg_nodeid_mask ≡ env.nodeid)
      × (bit_and (button_msg env sample).id canmsg_nodeid_mask ≡ env.nodeid)
      × ((heartbeat_msg env ts).id % 256 ≡ 1)
      × ((button_msg env sample).id % 256 ≡ 2)
unfolding heartbeat_msg button_msg
messages_decode env ts sample h = (
  record { id = omega arith; len = omega arith; payload = refl },
  record { id = omega arith; len = omega arith; payload = refl },
  omega (arith, bit_and_0xf00 ((env.nodeid + 1) % 2 ^ 32)),
  omega (arith, bit_and_0xf00 ((env.nodeid + 2) % 2 ^ 32)),
  omega arith,
  omega arith,
)

-- With fewer than 10 ^ 9 nanoseconds, and a time that fits 64 bits with a second to spare, the
-- payload of a heartbeat is the time since the start in microseconds, little-endian.
heartbeat_time :
    (env : CannodeEnv) (tv_sec tv_nsec : ℕ)
    → tv_nsec < 1000000000
    → 1000000 * tv_sec + 1000000 ≤ 2 ^ 64
    → le_value (heartbeat_msg env (can_get_timestamp tv_sec tv_nsec)).payload
      ≡ 1000000 * tv_sec + tv_nsec / 1000
unfolding heartbeat_msg can_get_timestamp
heartbeat_time env tv_sec tv_nsec h fits = let t = 1000000 * tv_sec + tv_nsec / 1000 in omega arith
