-- ===== src/Cannode/Button.antt =====
-- thread_button of cannode_main.c, with button_init and button_get: the thread over the button device,
-- and the one that plays button presses (CONFIG_RAILAB_MINIMAL_CANNODE_DUMMY).
pub mod Reports
use railab_nuttx_code.Prelude.{
  ℕ, ◌%◌, List, [], ◌∷◌, ◌++◌, ℤ, pos, ltb_ℤ, if◌then◌else◌, bit_and, ◌==◌,
}
use railab_nuttx_code.Cannode.Message.{CannodeEnv, CanMsg, button_msg}
use railab_nuttx_code.Cannode.Driver.{neg_errno}

-- button_init.
unfoldable pub button_init : (fd : ℤ) (errno : ℕ) → ℤ
button_init fd errno = if ltb_ℤ fd (pos 0) then neg_errno errno else fd

-- button_get: `filled` is what a read that succeeds leaves in the sample.
unfoldable pub button_get : (read_ret : ℤ) (filled : ℕ) → ℕ
button_get read_ret filled = if ltb_ℤ read_ret (pos 0) then 0 else filled

-- What the system returns in one round of the loop: of `poll` the result and the events that it
-- reports if it succeeds, of `read` the result and the sample.
pub record Press : Type 0 where
  pub poll_ret : ℤ
  pub reported : ℕ
  pub read_ret : ℤ
  pub filled : ℕ

-- One round: fds[0].revents behind it, and the messages handed to can_send, whose result is only
-- printed. `pollin` is POLLIN; a failed poll does not write to `revents`.
unfoldable pub button_round : (pollin : ℕ) → CannodeEnv → (revents : ℕ) → Press → ℕ × List CanMsg
unfolding button_get
button_round pollin env revents p =
    let revents = if ltb_ℤ p.poll_ret (pos 0) then revents else p.reported in
    if bit_and revents pollin == 0
    then (revents, [])
    else (0, button_msg env (button_get p.read_ret p.filled) ∷ [])

abbrev pub button_loop : (pollin : ℕ) → CannodeEnv → (revents : ℕ) → List Press → List CanMsg
button_loop pollin env revents [] = []
button_loop pollin env revents (p ∷ ps) =
    let (revents, sent) = button_round pollin env revents p in
    sent ++ button_loop pollin env revents ps

-- The thread over the button device: the messages of as many rounds as are given.
unfoldable pub thread_button :
    (pollin : ℕ) → CannodeEnv → (fd : ℤ) (errno : ℕ) → List Press → List CanMsg
unfolding button_init
thread_button pollin env fd errno ps =
    if ltb_ℤ (button_init fd errno) (pos 0) then [] else button_loop pollin env 0 ps

-- One round of the thread that plays presses: `sample_last` behind it, and the messages.
unfoldable pub dummy_round : CannodeEnv → (sample_last rand : ℕ) → ℕ × List CanMsg
dummy_round env sample_last rand =
    let sample = rand % 2 in
    if sample_last == sample then (sample_last, []) else (sample, button_msg env sample ∷ [])

abbrev pub dummy_loop : CannodeEnv → (sample_last : ℕ) (rands : List ℕ) → List CanMsg
dummy_loop env sample_last [] = []
dummy_loop env sample_last (rand ∷ rands) =
    let (sample_last, sent) = dummy_round env sample_last rand in
    sent ++ dummy_loop env sample_last rands

unfoldable pub thread_button_dummy : CannodeEnv → (rands : List ℕ) → List CanMsg
thread_button_dummy env rands = dummy_loop env 0 rands
