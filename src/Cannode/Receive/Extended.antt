-- ===== src/Cannode/Receive/Extended.antt =====
-- The receive thread behind SocketCAN with extended identifiers (CONFIG_NET_CAN_EXTID).
use railab_nuttx_code.Prelude.{ℕ, ◌+◌, ◌<◌, ◌≡◌, Bool, true, List, [], length, ℤ, done, arith}
use railab_nuttx_code.Prelude.Bits.{bit_and_0xf00}
use railab_nuttx_code.Cannode.Message.{CannodeEnv, CanMsg, IsMsg, IsNodeId, can_data_max}
use railab_nuttx_code.Cannode.Chardev.{CodesLength}
use railab_nuttx_code.Cannode.Sock.{
  SockFrame, SockArrives, sock_to_frame, sock_of_frame, sock_extid_raises,
}
use railab_nuttx_code.Cannode.Receive.{rx_round}

-- A message with a raised identifier is for no node.
raised_ignored :
    (userled : Bool) (env : CannodeEnv) (ret : ℤ) (msg : CanMsg) (id : ℕ)
    → IsNodeId env.nodeid
    → id < 2147483648
    → msg.id ≡ id + 2147483648
    → rx_round userled env ret msg ≡ []
unfolding rx_round
raised_ignored userled env ret msg id h below e = ground (arith, bit_and_0xf00 msg.id)

-- With arrays of 8 bytes, and NuttX's length codes the identity up to 8, a node identifier that
-- the build accepts, and extended identifiers in the build: can_send makes a frame of every
-- well-formed message with an identifier below 2 ^ 31, can_read makes a message of whatever frame
-- the bus brings for it, and the round of thread_rx on that message does nothing.
pub extid_requests_ignored :
    (can_bytes2dlc can_dlc2bytes : ℕ → ℕ) (stack old : List ℕ) (userled : Bool) (env : CannodeEnv)
    (ret : ℤ) (m : CanMsg)
    → CodesLength can_bytes2dlc
    → CodesLength can_dlc2bytes
    → length stack ≡ can_data_max
    → length old ≡ can_data_max
    → IsNodeId env.nodeid
    → IsMsg m
    → m.id < 2147483648
    → (f : SockFrame) × (sock_to_frame can_bytes2dlc true stack m ≡ done f)
      × ((g : SockFrame)
          → SockArrives f g
          → (r : CanMsg) × (sock_of_frame can_dlc2bytes old g ≡ done r)
            × (rx_round userled env ret r ≡ []))
extid_requests_ignored b2d d2b stack old userled env ret m codes decodes ss os h k below =
    let (f, made, arrive) = sock_extid_raises b2d d2b codes decodes stack old ss os m k below in
    (
      f,
      made,
      λ g a.
          let (r, got, id) = arrive g a in
          (r, got, raised_ignored userled env ret r m.id h below id),
    )
