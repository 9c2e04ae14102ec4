-- ===== src/Cannode/Driver.antt =====
-- What cannode.h promises of a CAN driver: can_send makes a frame of a message, and can_read makes a
-- message of a frame that arrives. Two drivers implement it, of which a build has one; on a bus both
-- may meet.
use railab_nuttx_code.Prelude.{ℕ, ◌≡◌, take, Outcome, done, ℤ, sub_ℕ}
use railab_nuttx_code.Cannode.Message.{CanMsg, IsMsg}

-- `-errno`.
abbrev pub neg_errno : ℕ → ℤ
neg_errno errno = sub_ℕ 0 errno

-- A message as far as it is transmitted: the bytes behind `len` are not.
pub record Carries (sent received : CanMsg) : Type 0 where
  pub id : received.id ≡ sent.id
  pub len : received.len ≡ sent.len
  pub payload : take sent.len received.payload ≡ take sent.len sent.payload

-- A `Port` is a build's way to the bus, and `port_of` a frame the one that it comes to. `Arrives f g`: the
-- bus brings the frame `f` as `g`.
pub record CanDriver : Type 1 where
  pub Port : Type 0
  pub Frame : Type 0
  pub port_of : Frame → Port
  pub Arrives : Frame → Frame → Type 0
  pub to_frame : Port → CanMsg → Outcome Frame
  pub of_frame : Frame → Outcome CanMsg
  pub delivers :
      (p : Port) (m : CanMsg)
      → IsMsg m
      → (f : Frame) × (to_frame p m ≡ done f)
        × ((g : Frame) → Arrives f g → (r : CanMsg) × (of_frame g ≡ done r) × Carries m r)

-- can_send at some port makes the frame of the message.
abbrev pub Made : (d : CanDriver) → CanMsg → d.Frame → Type 0
Made d m f = (p : d.Port) × (d.to_frame p m ≡ done f)

-- A thread's view of a transfer: the message that the receiver's can_read makes of what was sent.
pub record Transfer (d : CanDriver) (sent received : CanMsg) : Type 0 where
  pub frame : d.Frame
  pub arrived : d.Frame
  pub sends : Made d sent frame
  pub travels : d.Arrives frame arrived
  pub receives : d.of_frame arrived ≡ done received
