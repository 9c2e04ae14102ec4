-- ===== src/Cannode/Message.antt =====
-- cannode.h, and the functions of cannode_main.c that fill messages.
pub mod Ids
pub mod Copy
use railab_nuttx_code.Prelude.{
  ℕ, zero, suc, ◌+◌, ◌*◌, ◌/◌, ◌%◌, ◌<◌, ◌≡◌, List, [], ◌∷◌, length, u8, u32, u64, take, drop, leb,
  ◌&&◌, ◌++◌, Outcome, done, fault, if◌then◌else◌,
}

abbrev pub canmsg_heartbeat_id : ℕ
canmsg_heartbeat_id = 1

abbrev pub canmsg_button_id : ℕ
canmsg_button_id = 2

abbrev pub canmsg_led_id : ℕ
canmsg_led_id = 3

abbrev pub canmsg_heartbeat_bytes : ℕ
canmsg_heartbeat_bytes = 8

abbrev pub canmsg_button_bytes : ℕ
canmsg_button_bytes = 1

abbrev pub canmsg_nodeid_mask : ℕ
canmsg_nodeid_mask = 0xf00

abbrev pub can_data_max : ℕ
can_data_max = 8

-- struct cannode_env_s, without its file descriptor, which only the drivers use.
pub record CannodeEnv : Type 0 where
  pub nodeid : ℕ

-- struct canmsg_s; `payload` is its array `data`.
pub record CanMsg : Type 0 where
  pub id : ℕ
  pub len : ℕ
  pub payload : List ℕ

-- The bytes of a number in the memory of a little-endian host.
abbrev pub le_bytes : ℕ → ℕ → List ℕ
le_bytes zero x = []
le_bytes (suc n) x = x % 256 ∷ le_bytes n (x / 256)

-- memcpy between arrays that do not overlap.
unfoldable pub memcpy : (dst src : List ℕ) (n : ℕ) → Outcome (List ℕ)
memcpy dst src n =
    if leb n (length dst) && leb n (length src) then done (take n src ++ drop n dst) else fault

-- can_get_timestamp, from the two fields of the system time.
unfoldable pub can_get_timestamp : (tv_sec tv_nsec : ℕ) → ℕ
can_get_timestamp tv_sec tv_nsec = u64 (1000000 * tv_sec + tv_nsec / 1000)

-- heartbeat_msg and button_msg: the message after they filled it.
unfoldable pub heartbeat_msg : CannodeEnv → (ts : ℕ) → CanMsg
heartbeat_msg env ts = record {
  id = u32 (env.nodeid + canmsg_heartbeat_id);
  len = canmsg_heartbeat_bytes;
  payload = le_bytes 8 ts;
}

unfoldable pub button_msg : CannodeEnv → (sample : ℕ) → CanMsg
button_msg env sample = record {
  id = u32 (env.nodeid + canmsg_button_id);
  len = canmsg_button_bytes;
  payload = u8 sample ∷ 0 ∷ 0 ∷ 0 ∷ 0 ∷ 0 ∷ 0 ∷ 0 ∷ [];
}

-- A message whose fields fit their types.
pub record IsMsg (m : CanMsg) : Type 0 where
  pub id : m.id < 4294967296
  pub len : m.len < 9
  pub payload : length m.payload ≡ can_data_max

-- The bits of a node identifier that the build checks: none outside the mask.
abbrev pub IsNodeId : ℕ → Type 0
IsNodeId n = (n % 256 ≡ 0) × (n < 4096)
