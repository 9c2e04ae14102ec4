-- ===== src/Cannode/Reads.antt =====
-- What can_read of cannode_char.c and of cannode_sock.c make of the same read.
use railab_nuttx_code.Prelude.{
  ℕ, ◌≡◌, refl, true, false, length, ℤ, pos, ltb_ℤ, done, ◌⊎◌, inl, inr, Bool-cases,
}
use railab_nuttx_code.Cannode.Message.{CanMsg, can_data_max}
use railab_nuttx_code.Cannode.Message.Copy.{memcpy_all}
use railab_nuttx_code.Cannode.Driver.{neg_errno}
use railab_nuttx_code.Cannode.Chardev.{CharFrame, char_of_frame, char_can_read}
use railab_nuttx_code.Cannode.Sock.{SockFrame, sock_of_frame, sock_can_read}

-- The two frames hold the same identifier, length code and data.
pub record IsSame (f : CharFrame) (g : SockFrame) : Type 0 where
  pub id : g.can_id ≡ f.ch_id
  pub dlc : g.can_dlc ≡ f.ch_dlc
  pub payload : g.frame_data ≡ f.cm_data
  pub size : length f.cm_data ≡ can_data_max

-- How a read ends: with the error number and the message as it was, or with what the frame holds.
abbrev pub IsRead :
    (can_dlc2bytes : ℕ → ℕ) (msg : CanMsg) (ret : ℤ) (errno : ℕ) (f : CharFrame)
    → CanMsg × ℤ
    → Type 0
IsRead can_dlc2bytes msg ret errno f o =
    ((ltb_ℤ ret (pos 0) ≡ true) × (o ≡ (msg, neg_errno errno)))
    ⊎ ((ltb_ℤ ret (pos 0) ≡ false)
        × (o ≡ (record { id = f.ch_id; len = can_dlc2bytes f.ch_dlc; payload = f.cm_data }, ret)))

module _ (can_dlc2bytes : ℕ → ℕ) where
  -- With arrays of 8 bytes, can_read of both drivers ends in the same way on frames with the same
  -- identifier, length code and data, whatever these are and whatever `read` returns, with no access
  -- out of bounds: a failed read gives the negative error number and leaves the message as it was, and
  -- every other one gives the result of `read` and a message with identifier, length and data of the
  -- frame.
  pub can_reads_agree :
      (msg : CanMsg) (ret : ℤ) (errno : ℕ) (f : CharFrame) (g : SockFrame)
      → length msg.payload ≡ can_data_max
      → IsSame f g
      → (o : CanMsg × ℤ) × (char_can_read can_dlc2bytes msg ret errno f ≡ done o)
        × (sock_can_read can_dlc2bytes msg ret errno g ≡ done o)
        × IsRead can_dlc2bytes msg ret errno f o
  unfolding char_can_read sock_can_read char_of_frame sock_of_frame
  can_reads_agree msg ret errno f g room k = elim (Bool-cases (ltb_ℤ ret (pos 0))) [
    | inl failed ↦ ((msg, neg_errno errno), rw failed refl, rw failed refl, inl (failed, refl))
    | inr read ↦ (
      (record { id = f.ch_id; len = can_dlc2bytes f.ch_dlc; payload = f.cm_data }, ret),
      rw (read, memcpy_all msg.payload f.cm_data 8 room k.size) refl,
      rw (read, k.id, k.dlc, k.payload, memcpy_all msg.payload f.cm_data 8 room k.size) refl,
      inr (read, refl),
    )
  ]
