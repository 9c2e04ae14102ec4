-- ===== src/Cannode/Mixed.antt =====
-- A bus on which nodes of both builds meet: cannode_char.c, and cannode_sock.c without extended
-- identifiers.
use railab_nuttx_code.Prelude.{
  ℕ, ◌≡◌, refl, ap, ◌∙◌, false, List, ◌++◌, length, take, drop, Outcome, done, ◌>>=◌, arith,
}
use railab_nuttx_code.Cannode.Message.{CanMsg, IsMsg, can_data_max}
use railab_nuttx_code.Cannode.Message.Copy.{memcpy-done, memcpy_all, take-copy}
use railab_nuttx_code.Cannode.Driver.{Carries, CanDriver}
use railab_nuttx_code.Cannode.Chardev.{CharFrame, char_to_frame, char_of_frame, CodesLength}
use railab_nuttx_code.Cannode.Sock.{SockFrame, sock_to_frame, sock_of_frame}

-- The driver that a node was built with.
pub data Build : Type 0 where
  chardev : Build
  socketcan : Build

-- A frame as one of the drivers has it.
pub data AnyFrame : Type 0 where
  char_frame : CharFrame → AnyFrame
  sock_frame : SockFrame → AnyFrame

abbrev pub build_of : AnyFrame → Build
build_of (char_frame f) = chardev
build_of (sock_frame f) = socketcan

abbrev pub frame_id : AnyFrame → ℕ
frame_id (char_frame f) = f.ch_id
frame_id (sock_frame f) = f.can_id

abbrev pub frame_dlc : AnyFrame → ℕ
frame_dlc (char_frame f) = f.ch_dlc
frame_dlc (sock_frame f) = f.can_dlc

abbrev pub frame_bytes : AnyFrame → List ℕ
frame_bytes (char_frame f) = f.cm_data
frame_bytes (sock_frame f) = f.frame_data

-- The bus brings identifier and length code, and as many bytes, whichever driver reads them.
pub record AnyArrives (f g : AnyFrame) : Type 0 where
  pub id : frame_id g ≡ frame_id f
  pub dlc : frame_dlc g ≡ frame_dlc f
  pub size : length (frame_bytes g) ≡ can_data_max
  pub bytes : take (frame_dlc f) (frame_bytes g) ≡ take (frame_dlc f) (frame_bytes f)

-- What a frame says of its message.
record Says (can_bytes2dlc : ℕ → ℕ) (m : CanMsg) (f : AnyFrame) : Type 0 where
  pub id : frame_id f ≡ m.id
  pub dlc : frame_dlc f ≡ can_bytes2dlc m.len
  pub bytes : take m.len (frame_bytes f) ≡ take m.len m.payload

-- can_send and can_read as far as they convert.
module _ (can_bytes2dlc : ℕ → ℕ) (stack : List ℕ) where
  unfoldable pub any_to_frame : Build → CanMsg → Outcome AnyFrame
  any_to_frame chardev m = do f ← char_to_frame can_bytes2dlc false stack m; done (char_frame f)
  any_to_frame socketcan m = do f ← sock_to_frame can_bytes2dlc false stack m; done (sock_frame f)

module _ (can_dlc2bytes : ℕ → ℕ) (old : List ℕ) where
  unfoldable pub any_of_frame : AnyFrame → Outcome CanMsg
  any_of_frame (char_frame f) = char_of_frame can_dlc2bytes old f
  any_of_frame (sock_frame f) = sock_of_frame can_dlc2bytes old f

module _ (can_bytes2dlc can_dlc2bytes : ℕ → ℕ) (codes : CodesLength can_bytes2dlc)
    (decodes : CodesLength can_dlc2bytes) (stack old : List ℕ)
    (stack_size : length stack ≡ can_data_max) (old_size : length old ≡ can_data_max) where
  any_sends :
      (from : Build) (m : CanMsg)
      → IsMsg m
      → (f : AnyFrame) × (any_to_frame can_bytes2dlc stack from m ≡ done f) × Says can_bytes2dlc m f
  unfolding any_to_frame char_to_frame sock_to_frame
  any_sends chardev m k = (
    char_frame (record {
      ch_id = m.id;
      ch_rtr = false;
      ch_dlc = can_bytes2dlc m.len;
      ch_error = false;
      ch_extid = false;
      ch_tcf = false;
      cm_data = m.payload;
    }),
    rw (memcpy_all stack m.payload 8 stack_size k.payload) refl,
    record { id = refl; dlc = refl; bytes = refl },
  )
  any_sends socketcan m k = (
    sock_frame (record {
      can_id = m.id;
      can_dlc = can_bytes2dlc m.len;
      frame_data = take m.len m.payload ++ drop m.len stack;
    }),
    rw (memcpy-done stack m.payload m.len (omega (arith, k.len)) (omega (arith, k.payload, k.len)))
        refl,
    record {
      id = refl;
      dlc = refl;
      bytes = take-copy m.len m.payload (drop m.len stack) (omega (arith, k.payload, k.len));
    },
  )

  any_receives :
      (g : AnyFrame)
      → length (frame_bytes g) ≡ can_data_max
      → any_of_frame can_dlc2bytes old g
        ≡ done
            (record { id = frame_id g; len = can_dlc2bytes (frame_dlc g); payload = frame_bytes g })
  unfolding any_of_frame char_of_frame sock_of_frame
  any_receives (char_frame g) size = rw (memcpy_all old g.cm_data 8 old_size size) refl
  any_receives (sock_frame g) size = rw (memcpy_all old g.frame_data 8 old_size size) refl

  pub drivers_interoperate :
      (from : Build) (m : CanMsg)
      → IsMsg m
      → (f : AnyFrame) × (any_to_frame can_bytes2dlc stack from m ≡ done f)
        × ((g : AnyFrame)
            → AnyArrives f g
            → (r : CanMsg) × (any_of_frame can_dlc2bytes old g ≡ done r) × Carries m r)
  drivers_interoperate from m k =
      let (f, made, says) = any_sends from m k in
      (
        f,
        made,
        λ g a.
            let code = says.dlc ∙ codes m.len k.len in
            (
              _,
              any_receives g a.size,
              record {
                id = a.id ∙ says.id;
                len = ap can_dlc2bytes (a.dlc ∙ code) ∙ decodes m.len k.len;
                payload = (rw code at a.bytes) ∙ says.bytes;
              },
            ),
      )

  abbrev pub mixed_driver : CanDriver
  mixed_driver = record {
    Port = Build;
    Frame = AnyFrame;
    port_of = build_of;
    Arrives = AnyArrives;
    to_frame = any_to_frame can_bytes2dlc stack;
    of_frame = any_of_frame can_dlc2bytes old;
    delivers = drivers_interoperate;
  }
