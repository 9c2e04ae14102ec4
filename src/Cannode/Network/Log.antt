-- ===== src/Cannode/Network/Log.antt =====
-- A log of messages sorted by identifier, and what the messages of a node say.
use railab_nuttx_code.Prelude.{
  ℕ, ◌+◌, ◌≡◌, ◌≢◌, refl, ap, true, false, List, [], ◌∷◌, ◌++◌, append-nil, map, get_or, u8,
  if◌then◌else◌, ◌==◌, ==_iff, Bool-cases, inl, inr, arith,
}
use railab_nuttx_code.Cannode.Message.{
  CannodeEnv, CanMsg, IsNodeId, heartbeat_msg, button_msg, can_get_timestamp,
}
use railab_nuttx_code.Cannode.Message.Ids.{le_value}
use railab_nuttx_code.Cannode.Button.{Press, button_get}
use railab_nuttx_code.Cannode.Main.{Beat}
use railab_nuttx_code.Cannode.Main.Heartbeats.{heartbeat_of}

-- What a message carries as a heartbeat, and as a button message.
abbrev pub time_in : CanMsg → ℕ
time_in m = le_value m.payload

abbrev pub buttons_in : CanMsg → ℕ
buttons_in m = get_or m.payload 0 0

-- The messages with an identifier.
abbrev pub with_id : ℕ → List CanMsg → List CanMsg
with_id id [] = []
with_id id (m ∷ ms) = if m.id == id then m ∷ with_id id ms else with_id id ms

with_id-append :
    (id : ℕ) (ms ns : List CanMsg) → with_id id (ms ++ ns) ≡ with_id id ms ++ with_id id ns
with_id-append id [] ns = refl
with_id-append id (m ∷ ms) ns = elim (Bool-cases (m.id == id)) [
  | inl same ↦ rw same (ap (λ l. m ∷ l) (with_id-append id ms ns))
  | inr other ↦ rw other (with_id-append id ms ns)
]

-- One more message.
pub with_id-snoc_same :
    (id : ℕ) (ms : List CanMsg) (m : CanMsg)
    → m.id ≡ id
    → with_id id (ms ++ m ∷ []) ≡ with_id id ms ++ m ∷ []
with_id-snoc_same id ms m e =
    let same : (m.id == id) ≡ true = (==_iff m.id id).1 e in
    rw same at (with_id-append id ms (m ∷ []))

pub with_id-snoc_other :
    (id : ℕ) (ms : List CanMsg) (m : CanMsg) → m.id ≢ id → with_id id (ms ++ m ∷ []) ≡ with_id id ms
with_id-snoc_other id ms m e =
    let other : (m.id == id) ≡ false = ground arith in
    rw (other, append-nil) at (with_id-append id ms (m ∷ []))

-- The sample that a button message carries.
abbrev pub pressed : CannodeEnv → Press → CanMsg
pressed env p = button_msg env (button_get p.read_ret p.filled)

pub heartbeat-id :
    (env : CannodeEnv) (ts : ℕ) → IsNodeId env.nodeid → (heartbeat_msg env ts).id ≡ env.nodeid + 1
unfolding heartbeat_msg
heartbeat-id env ts h = omega arith

pub button-id :
    (env : CannodeEnv) (sample : ℕ)
    → IsNodeId env.nodeid
    → (button_msg env sample).id ≡ env.nodeid + 2
unfolding button_msg
button-id env sample h = omega arith

-- What a heartbeat and a button message say.
pub heartbeat_value :
    (env : CannodeEnv) (bs : List Beat)
    → map time_in (map (heartbeat_of env) bs)
      ≡ map (λ (b : Beat). can_get_timestamp b.tv_sec b.tv_nsec) bs
unfolding heartbeat_msg can_get_timestamp
heartbeat_value env [] = refl
heartbeat_value env (b ∷ bs) =
    let ts = can_get_timestamp b.tv_sec b.tv_nsec in
    let whole : le_value (heartbeat_msg env ts).payload ≡ ts = omega arith in
    rw (whole, heartbeat_value env bs) refl

pub button_value :
    (env : CannodeEnv) (ps : List Press)
    → map buttons_in (map (pressed env) ps)
      ≡ map (λ (p : Press). u8 (button_get p.read_ret p.filled)) ps
unfolding button_msg
button_value env [] = refl
button_value env (p ∷ ps) = rw (button_value env ps) refl
