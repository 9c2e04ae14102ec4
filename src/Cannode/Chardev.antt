-- ===== src/Cannode/Chardev.antt =====
-- The driver over the CAN character device, cannode_char.c.
use railab_nuttx_code.Prelude.{
  ℕ, ◌<◌, ◌≡◌, ◌∙◌, ap, Bool, false, List, length, take, ℤ, pos, ltb_ℤ, if◌then◌else◌, Outcome,
  done, ◌>>=◌,
}
use railab_nuttx_code.Cannode.Message.{CanMsg, memcpy, can_data_max, IsMsg}
use railab_nuttx_code.Cannode.Message.Copy.{memcpy_all}
use railab_nuttx_code.Cannode.Driver.{neg_errno, Carries, CanDriver}

-- struct can_msg_s of NuttX as the driver fills it; `extid` is set under CONFIG_CAN_EXTID.
pub record CharFrame : Type 0 where
  pub ch_id : ℕ
  pub ch_rtr : Bool
  pub ch_dlc : ℕ
  pub ch_error : Bool
  pub ch_extid : Bool
  pub ch_tcf : Bool
  pub cm_data : List ℕ

-- can_init: the file descriptor, or the error of `open`.
unfoldable pub char_can_init : (fd : ℤ) (errno : ℕ) → ℤ
char_can_init fd errno = if ltb_ℤ fd (pos 0) then neg_errno errno else fd

-- `can_bytes2dlc` and `CAN_MSGLEN` are NuttX's; `stack` is what the frame's data holds before they
-- are set.
module _ (can_bytes2dlc : ℕ → ℕ) (extid : Bool) (stack : List ℕ) where
  unfoldable pub char_to_frame : CanMsg → Outcome CharFrame
  char_to_frame msg = do
    cm_data ← memcpy stack msg.payload can_data_max
    done (record {
      ch_id = msg.id;
      ch_rtr = false;
      ch_dlc = can_bytes2dlc msg.len;
      ch_error = false;
      ch_extid = extid;
      ch_tcf = false;
      cm_data = cm_data;
    })

  -- can_send: the frame, the number of its bytes handed to `write`, and the result.
  unfoldable pub char_can_send :
      (can_msglen : ℕ → ℕ) → CanMsg → (ret : ℤ) (errno : ℕ) → Outcome (CharFrame × ℕ × ℤ)
  unfolding char_to_frame
  char_can_send can_msglen msg ret errno = do
    frame ← char_to_frame msg
    done (frame, can_msglen msg.len, if ltb_ℤ ret (pos 0) then neg_errno errno else ret)

-- `can_dlc2bytes` is NuttX's; `old` is the message's data before.
module _ (can_dlc2bytes : ℕ → ℕ) where
  unfoldable pub char_of_frame : (old : List ℕ) → CharFrame → Outcome CanMsg
  char_of_frame old frame = do
    payload ← memcpy old frame.cm_data can_data_max
    done (record { id = frame.ch_id; len = can_dlc2bytes frame.ch_dlc; payload = payload })

  -- can_read: the message and the result; an error leaves the message alone.
  unfoldable pub char_can_read :
      (msg : CanMsg) (ret : ℤ) (errno : ℕ) → CharFrame → Outcome (CanMsg × ℤ)
  unfolding char_of_frame
  char_can_read msg ret errno frame =
      if ltb_ℤ ret (pos 0)
      then done (msg, neg_errno errno)
      else (do msg ← char_of_frame msg.payload frame; done (msg, ret))

-- A classic CAN frame: up to 8 bytes, whose number is their code.
abbrev pub CodesLength : (ℕ → ℕ) → Type 0
CodesLength f = (n : ℕ) → n < 9 → f n ≡ n

-- The bus brings identifier and length, and as many bytes; the rest is as it happens.
pub record CharArrives (f g : CharFrame) : Type 0 where
  pub ch_id : g.ch_id ≡ f.ch_id
  pub ch_dlc : g.ch_dlc ≡ f.ch_dlc
  pub size : length g.cm_data ≡ can_data_max
  pub cm_data : take f.ch_dlc g.cm_data ≡ take f.ch_dlc f.cm_data

module _ (can_bytes2dlc can_dlc2bytes : ℕ → ℕ) (codes : CodesLength can_bytes2dlc)
    (decodes : CodesLength can_dlc2bytes) (extid : Bool) (stack old : List ℕ)
    (stack_size : length stack ≡ can_data_max) (old_size : length old ≡ can_data_max) where
  -- With arrays of 8 bytes, and NuttX's length codes the identity up to 8, every well-formed
  -- message arrives over the character device: can_send makes a frame of it, and of whatever frame
  -- the bus brings for it can_read makes a message with identifier, length and the bytes in use as
  -- they were sent.
  pub char_delivers :
      (m : CanMsg)
      → IsMsg m
      → (f : CharFrame) × (char_to_frame can_bytes2dlc extid stack m ≡ done f)
        × ((g : CharFrame)
            → CharArrives f g
            → (r : CanMsg) × (char_of_frame can_dlc2bytes old g ≡ done r) × Carries m r)
  unfolding char_to_frame char_of_frame
  char_delivers m k =
      let code = codes m.len k.len in
      (
        record {
          ch_id = m.id;
          ch_rtr = false;
          ch_dlc = can_bytes2dlc m.len;
          ch_error = false;
          ch_extid = extid;
          ch_tcf = false;
          cm_data = m.payload;
        },
        rw (memcpy_all stack m.payload 8 stack_size k.payload),
        λ g a. (
          record { id = g.ch_id; len = can_dlc2bytes g.ch_dlc; payload = g.cm_data },
          rw (memcpy_all old g.cm_data 8 old_size a.size),
          record {
            id = a.ch_id;
            len = ap can_dlc2bytes (a.ch_dlc ∙ code) ∙ decodes m.len k.len;
            payload = rw code at a.cm_data;
          },
        ),
      )

  abbrev pub char_driver : CanDriver
  char_driver = record {
    Port = Unit;
    Frame = CharFrame;
    port_of = λ f. tt;
    Arrives = CharArrives;
    to_frame = λ p. char_to_frame can_bytes2dlc extid stack;
    of_frame = char_of_frame can_dlc2bytes old;
    delivers = λ p. char_delivers;
  }
