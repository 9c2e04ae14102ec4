-- ===== src/Cannode/Button/Reports.antt =====
-- Which button messages the two threads send.
use railab_nuttx_code.Prelude.{
  ℕ, zero, suc, ◌-◌, ◌%◌, ◌<◌, ◌≤◌, ◌≡◌, refl, sym, ap, true, not, List, [], ◌∷◌, map, length, ℤ,
  pos, ltb_ℤ, if◌then◌else◌, bit_and, ◌==◌, ==_iff, Bool-cases, inl, inr, ◌&&◌, arith,
}
use railab_nuttx_code.Prelude.Bits.{zero-bit_and}
use railab_nuttx_code.Prelude.{sub_ℕ}
use railab_nuttx_code.Cannode.Message.{CannodeEnv, button_msg}
use railab_nuttx_code.Cannode.Button.{
  Press, button_init, button_get, button_round, button_loop, thread_button, dummy_round, dummy_loop,
  thread_button_dummy,
}

-- The samples of the rounds whose poll succeeded and reported the button.
abbrev pub reports : (pollin : ℕ) → List Press → List ℕ
reports pollin [] = []
reports pollin (p ∷ ps) =
    if not (ltb_ℤ p.poll_ret (pos 0)) && not (bit_and p.reported pollin == 0)
    then (if ltb_ℤ p.read_ret (pos 0) then 0 else p.filled) ∷ reports pollin ps
    else reports pollin ps

loop-reports :
    (pollin : ℕ) (env : CannodeEnv) (revents : ℕ) (ps : List Press)
    → bit_and 0 pollin ≡ 0
    → bit_and revents pollin ≡ 0
    → button_loop pollin env revents ps ≡ map (button_msg env) (reports pollin ps)
unfolding button_round button_get
loop-reports pollin env revents [] h r = refl
loop-reports pollin env revents (p ∷ ps) h r =
    let kept = loop-reports pollin env revents ps h r in
    let reset = loop-reports pollin env 0 ps h h in
    let next = loop-reports pollin env p.reported ps h in
    elim (Bool-cases (ltb_ℤ p.poll_ret (pos 0))) [
      | inl failed ↦ rw (failed, r) kept
      | inr ok ↦ elim (Bool-cases (bit_and p.reported pollin == 0)) [
        | inl quiet ↦ rw (ok, quiet) (next ((==_iff _ 0).0 quiet))
        | inr pressed ↦
            rw (ok, pressed)
              (ap (λ l. button_msg env (if ltb_ℤ p.read_ret (pos 0) then 0 else p.filled) ∷ l)
                reset)
      ]
    ]

-- With positive error numbers: over a button device that opens, the thread sends one button
-- message for each poll that succeeds and reports POLLIN, in order, with the sample that was read,
-- or 0 if the read failed, and nothing else. Without the device it sends nothing.
pub thread_button-reports :
    (pollin : ℕ) (env : CannodeEnv) (fd : ℤ) (errno : ℕ) (ps : List Press)
    → 0 < errno
    → thread_button pollin env fd errno ps
      ≡ map (button_msg env) (if ltb_ℤ fd (pos 0) then [] else reports pollin ps)
unfolding thread_button button_init
thread_button-reports pollin env fd errno ps h = elim (Bool-cases (ltb_ℤ fd (pos 0))) [
  | inl none ↦ let bad : ltb_ℤ (sub_ℕ 0 errno) (pos 0) ≡ true = ground arith in rw (none, bad)
  | inr opened ↦
      rw (opened, opened) (loop-reports pollin env 0 ps (zero-bit_and pollin) (zero-bit_and pollin))
]

-- 1, 0, 1 and so on.
abbrev alternate : (sample n : ℕ) → List ℕ
alternate sample zero = []
alternate sample (suc n) = sample ∷ alternate (1 - sample) n

dummy_loop-alternate :
    (env : CannodeEnv) (last : ℕ) (rands : List ℕ)
    → last < 2
    → (n : ℕ) × (n ≤ length rands)
      × (dummy_loop env last rands ≡ map (button_msg env) (alternate (1 - last) n))
unfolding dummy_round
dummy_loop-alternate env last [] h = (0, omega arith, refl)
dummy_loop-alternate env last (rand ∷ rands) h = elim (Bool-cases (last == rand % 2)) [
  | inl same ↦
      let (n, few, sent) = dummy_loop-alternate env last rands h in (n, omega arith, rw same sent)
  | inr new ↦
      let (n, few, sent) = dummy_loop-alternate env (rand % 2) rands (omega arith) in
      let other : rand % 2 ≡ 1 - last = ground arith in
      (suc n, omega arith, rw (new, sym other) (ap (λ l. button_msg env (rand % 2) ∷ l) sent))
]

-- The thread that plays presses sends, whatever the random numbers, the samples 1, 0, 1 and so on:
-- it starts with a press, never repeats a state, and sends at most one message in a round.
thread_button_dummy_alternates :
    (env : CannodeEnv) (rands : List ℕ)
    → (n : ℕ) × (n ≤ length rands)
      × (thread_button_dummy env rands ≡ map (button_msg env) (alternate 1 n))
unfolding thread_button_dummy
thread_button_dummy_alternates env rands = dummy_loop-alternate env 0 rands (omega arith)
