-- ===== src/Cannode/Sock.antt =====
-- The driver over SocketCAN, cannode_sock.c.
pub mod Errors
use railab_nuttx_code.Prelude.{
  ℕ, ◌+◌, ◌<◌, ◌≤◌, ◌≡◌, ◌≢◌, ◌^◌, refl, ◌∙◌, sym, ap, Bool, true, false, not, List, [], ◌∷◌, ◌++◌,
  length, take, drop, ℤ, pos, ltb_ℤ, leb_ℤ, if◌then◌else◌, Outcome, done, ◌>>=◌, leb, ◌&&◌, ◌==◌,
  arith, bit_or, u32,
}
use railab_nuttx_code.Prelude.Bits.{bit_or_flag}
use railab_nuttx_code.Cannode.Message.{CanMsg, memcpy, can_data_max, IsMsg}
use railab_nuttx_code.Cannode.Message.Copy.{memcpy-done, memcpy_all, take-copy}
use railab_nuttx_code.Cannode.Driver.{neg_errno, Carries, CanDriver}
use railab_nuttx_code.Cannode.Chardev.{CodesLength}

-- struct can_frame of SocketCAN.
pub record SockFrame : Type 0 where
  pub can_id : ℕ
  pub can_dlc : ℕ
  pub frame_data : List ℕ

-- can_init: the socket, or the error of `socket` or of `bind`; the ioctl's result is not looked at.
unfoldable pub sock_can_init : (s : ℤ) (errno : ℕ) (ioctl_ret bind_ret : ℤ) (bind_errno : ℕ) → ℤ
sock_can_init s errno ioctl_ret bind_ret bind_errno =
    if ltb_ℤ s (pos 0)
    then neg_errno errno
    else (if ltb_ℤ bind_ret (pos 0) then neg_errno bind_errno else s)

-- `ret == n` on an `int`.
abbrev pub is_number : ℕ → ℤ → Bool
is_number n ret = leb_ℤ (pos n) ret && leb_ℤ ret (pos n)

-- CAN_EFF_FLAG of SocketCAN, bit 31 of an identifier.
abbrev pub can_eff_flag : ℕ
can_eff_flag = 0x80000000

-- `extid` is CONFIG_NET_CAN_EXTID; `stack` is what the frame's data holds before they are set.
module _ (can_bytes2dlc : ℕ → ℕ) (extid : Bool) (stack : List ℕ) where
  unfoldable pub sock_to_frame : CanMsg → Outcome SockFrame
  sock_to_frame msg = do
    frame_data ← memcpy stack msg.payload msg.len
    done (record {
      can_id = if extid then bit_or msg.id can_eff_flag else msg.id;
      can_dlc = can_bytes2dlc msg.len;
      frame_data = frame_data;
    })

  -- can_send: the frame and the result; `can_mtu` bytes are handed to `write`.
  unfoldable pub sock_can_send :
      (can_mtu eio : ℕ) → CanMsg → (ret : ℤ) (errno : ℕ) → Outcome (SockFrame × ℤ)
  unfolding sock_to_frame
  sock_can_send can_mtu eio msg ret errno = do
    frame ← sock_to_frame msg
    done (
      frame,
      if ltb_ℤ ret (pos 0)
          then neg_errno errno
          else (if is_number can_mtu ret then ret else neg_errno eio),
    )

module _ (can_dlc2bytes : ℕ → ℕ) where
  unfoldable pub sock_of_frame : (old : List ℕ) → SockFrame → Outcome CanMsg
  sock_of_frame old frame = do
    payload ← memcpy old frame.frame_data can_data_max
    done (record { id = frame.can_id; len = can_dlc2bytes frame.can_dlc; payload = payload })

  -- can_read: the message and the result; an error leaves the message alone.
  unfoldable pub sock_can_read :
      (msg : CanMsg) (ret : ℤ) (errno : ℕ) → SockFrame → Outcome (CanMsg × ℤ)
  unfolding sock_of_frame
  sock_can_read msg ret errno frame =
      if ltb_ℤ ret (pos 0)
      then done (msg, neg_errno errno)
      else (do msg ← sock_of_frame msg.payload frame; done (msg, ret))

pub record SockArrives (f g : SockFrame) : Type 0 where
  pub can_id : g.can_id ≡ f.can_id
  pub can_dlc : g.can_dlc ≡ f.can_dlc
  pub size : length g.frame_data ≡ can_data_max
  pub frame_data : take f.can_dlc g.frame_data ≡ take f.can_dlc f.frame_data

module _ (can_bytes2dlc can_dlc2bytes : ℕ → ℕ) (codes : CodesLength can_bytes2dlc)
    (decodes : CodesLength can_dlc2bytes) (stack old : List ℕ)
    (stack_size : length stack ≡ can_data_max) (old_size : length old ≡ can_data_max) where
  -- The frame of a message, and what can_read makes of it when it arrives.
  sock_transfer :
      (extid : Bool) (m : CanMsg)
      → IsMsg m
      → (f : SockFrame) × (sock_to_frame can_bytes2dlc extid stack m ≡ done f)
        × (f.can_id ≡ (if extid then bit_or m.id can_eff_flag else m.id))
        × ((g : SockFrame)
            → SockArrives f g
            → (r : CanMsg) × (sock_of_frame can_dlc2bytes old g ≡ done r)
              × (r.id ≡ f.can_id)
              × (r.len ≡ m.len)
              × (take m.len r.payload ≡ take m.len m.payload))
  unfolding sock_to_frame sock_of_frame
  sock_transfer extid m k =
      let code = codes m.len k.len in
      let small = k.len in
      (
        record {
          can_id = if extid then bit_or m.id can_eff_flag else m.id;
          can_dlc = can_bytes2dlc m.len;
          frame_data = take m.len m.payload ++ drop m.len stack;
        },
        rw (memcpy-done stack m.payload m.len (omega arith) (omega (arith, k.payload))),
        refl,
        λ g a. (
          record { id = g.can_id; len = can_dlc2bytes g.can_dlc; payload = g.frame_data },
          rw (memcpy_all old g.frame_data 8 old_size a.size),
          a.can_id,
          ap can_dlc2bytes (a.can_dlc ∙ code) ∙ decodes m.len k.len,
          (rw code at a.frame_data)
              ∙ take-copy m.len m.payload (drop m.len stack) (omega (arith, k.payload)),
        ),
      )

  -- With arrays of 8 bytes, and NuttX's length codes the identity up to 8, every well-formed
  -- message arrives over SocketCAN without extended identifiers: can_send makes a frame of it, and
  -- of whatever frame the bus brings for it can_read makes a message with identifier, length and
  -- the bytes in use as they were sent.
  pub sock_delivers :
      (m : CanMsg)
      → IsMsg m
      → (f : SockFrame) × (sock_to_frame can_bytes2dlc false stack m ≡ done f)
        × ((g : SockFrame)
            → SockArrives f g
            → (r : CanMsg) × (sock_of_frame can_dlc2bytes old g ≡ done r) × Carries m r)
  sock_delivers m k =
      let (f, run, id, arrive) = sock_transfer false m k in
      (
        f,
        run,
        λ g a.
            let (r, got, same, len, bytes) = arrive g a in
            (r, got, record { id = same ∙ id; len = len; payload = bytes }),
      )

  -- With extended identifiers (CONFIG_NET_CAN_EXTID) the flag that can_send sets in the identifier
  -- is not taken out by can_read: every message below the flag arrives with its identifier raised
  -- by 2 ^ 31.
  pub sock_extid_raises :
      (m : CanMsg)
      → IsMsg m
      → m.id < 2147483648
      → (f : SockFrame) × (sock_to_frame can_bytes2dlc true stack m ≡ done f)
        × ((g : SockFrame)
            → SockArrives f g
            → (r : CanMsg) × (sock_of_frame can_dlc2bytes old g ≡ done r)
              × (r.id ≡ m.id + 2147483648))
  sock_extid_raises m k below =
      let (f, run, id, arrive) = sock_transfer true m k in
      (
        f,
        run,
        λ g a.
            let (r, got, same, len, bytes) = arrive g a in
            (r, got, same ∙ (id ∙ bit_or_flag m.id below)),
      )

  abbrev pub sock_driver : CanDriver
  sock_driver = record {
    Port = Unit;
    Frame = SockFrame;
    port_of = λ f. tt;
    Arrives = SockArrives;
    to_frame = λ p. sock_to_frame can_bytes2dlc false stack;
    of_frame = sock_of_frame can_dlc2bytes old;
    delivers = λ p. sock_delivers;
  }
