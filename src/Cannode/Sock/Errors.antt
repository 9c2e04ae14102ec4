-- ===== src/Cannode/Sock/Errors.antt =====
-- What can_send of cannode_sock.c reports.
use railab_nuttx_code.Prelude.{
  ℕ, ◌<◌, ◌≡◌, ap, Bool, false, List, length, ℤ, pos, ltb_ℤ, done, ◌>>=◌, ◌↔◌, if◌then◌else◌, arith,
  bit_or,
}
use railab_nuttx_code.Cannode.Message.{CanMsg, IsMsg, can_data_max}
use railab_nuttx_code.Cannode.Message.Copy.{memcpy-done}
use railab_nuttx_code.Cannode.Driver.{neg_errno}
use railab_nuttx_code.Cannode.Sock.{
  SockFrame, sock_to_frame, sock_can_send, is_number, can_eff_flag,
}

abbrev frame_of : (can_bytes2dlc : ℕ → ℕ) (extid : Bool) → CanMsg → List ℕ → SockFrame
frame_of b2d extid m bytes = record {
  can_id = if extid then bit_or m.id can_eff_flag else m.id;
  can_dlc = b2d m.len;
  frame_data = bytes;
}

complete_write :
    (can_mtu eio : ℕ) (ret : ℤ) (errno : ℕ)
    → 0 < errno
    → 0 < eio
    → (ltb_ℤ
          (if ltb_ℤ ret (pos 0)
            then neg_errno errno
            else (if is_number can_mtu ret then ret else neg_errno eio))
          (pos 0)
        ≡ false)
      ↔ (ret ≡ pos can_mtu)
complete_write can_mtu eio ret errno he hi = (λ h. ground arith, λ h. ground arith)

sock_to_frame-done :
    (can_bytes2dlc : ℕ → ℕ) (extid : Bool) (stack : List ℕ) (m : CanMsg)
    → length stack ≡ can_data_max
    → IsMsg m
    → (f : SockFrame) × (sock_to_frame can_bytes2dlc extid stack m ≡ done f)
unfolding sock_to_frame
sock_to_frame-done b2d extid stack m size k = (
  _,
  ap (λ o. o >>= λ (bytes : List ℕ). done (frame_of b2d extid m bytes))
      (memcpy-done stack m.payload m.len (omega (arith, k.len)) (omega (arith, k.payload, k.len))),
)

-- For a well-formed message, an array of 8 bytes and positive error numbers, can_send over
-- SocketCAN gives a frame and a result, and the result is no error exactly when `write` took the
-- whole frame.
pub sock_can_send_complete :
    (can_bytes2dlc : ℕ → ℕ) (extid : Bool) (stack : List ℕ) (can_mtu eio : ℕ) (m : CanMsg) (ret : ℤ)
    (errno : ℕ)
    → length stack ≡ can_data_max
    → IsMsg m
    → 0 < errno
    → 0 < eio
    → (f : SockFrame) × (r : ℤ) × (sock_can_send can_bytes2dlc extid stack can_mtu eio m ret errno
        ≡ done (f, r))
      × ((ltb_ℤ r (pos 0) ≡ false) ↔ (ret ≡ pos can_mtu))
unfolding sock_can_send
sock_can_send_complete b2d extid stack can_mtu eio m ret errno size k he hi =
    let (f, made) = sock_to_frame-done b2d extid stack m size k in
    (
      f,
      if ltb_ℤ ret (pos 0)
          then neg_errno errno
          else (if is_number can_mtu ret then ret else neg_errno eio),
      rw made,
      complete_write can_mtu eio ret errno he hi,
    )
