-- ===== src/Components4/Counts.antt =====
-- Every line `sem!` stands for a post.
use railab_nuttx_code.Prelude.{
  ℕ, suc, ◌+◌, ◌≤◌, ◌≡◌, refl, false, List, [], ◌∷◌, ◌++◌, ℤ, pos, ltb_ℤ, if◌then◌else◌, arith,
  Bool-cases, inl, inr,
}
use railab_nuttx_code.Components4.{
  Config, timer_posts, Line, sem, eintr_line, Semaphore, IsCounting, System, posted, main_round,
  Step, thread_post, callback_post, main_waits, Reach, start, later,
}

-- The lines `sem!` among some lines.
abbrev pub sems : List Line → ℕ
sems [] = 0
sems (sem ∷ ls) = suc (sems ls)
sems (eintr_line ∷ ls) = sems ls

sems-append : (xs ys : List Line) → sems (xs ++ ys) ≡ sems xs + sems ys
sems-append [] ys = omega arith
sems-append (sem ∷ xs) ys = omega (arith, sems-append xs ys)
sems-append (eintr_line ∷ xs) ys = sems-append xs ys

main_round-sems :
    (eintr : ℕ) (ret : ℤ) (errno : ℕ)
    → sems (main_round eintr ret errno) ≡ (if ltb_ℤ ret (pos 0) then 0 else 1)
unfolding main_round
main_round-sems eintr ret errno = ground arith

module _ (p : Semaphore) (k : IsCounting p) (eintr : ℕ) (c : Config) where
  abbrev pub Balanced : p.Sem → System p.Sem → Type 0
  Balanced first s =
      (p.value first + s.posts ≡ p.value s.g_sem + sems s.printed + s.dropped)
      × (s.dropped ≤ s.posts)

  posted-Balanced :
      (first : p.Sem) (ret : ℤ) (g : p.Sem) (s : System p.Sem)
      → p.Posts s.g_sem ret g
      → Balanced first s
      → Balanced first (posted ret g s)
  posted-Balanced first ret g s post b = elim (Bool-cases (ltb_ℤ ret (pos 0))) [
    | inl failed ↦ rw failed (omega (arith, b, k.post_fails s.g_sem g ret post failed))
    | inr counts ↦ rw counts (omega (arith, b, k.post_counts s.g_sem g ret post counts))
  ]

  Step-Balanced :
      {s t : System p.Sem} (first : p.Sem)
      → Step p eintr c s t
      → Balanced first s
      → Balanced first t
  Step-Balanced {s} first (thread_post ret g on post) b = posted-Balanced first ret g s post b
  Step-Balanced {s} first (callback_post ret g on post) b = posted-Balanced first ret g s post b
  Step-Balanced {s} first (main_waits ret errno g wait) b =
      let lines = main_round-sems eintr ret errno in
      let all = sems-append s.printed (main_round eintr ret errno) in
      elim (Bool-cases (ltb_ℤ ret (pos 0))) [
        | inl failed ↦
            omega (arith, b, all, rw failed at lines, k.wait_fails s.g_sem g ret errno wait failed)
        | inr taken ↦
            omega (arith, b, all, rw taken at lines, k.wait_takes s.g_sem g ret errno wait taken)
      ]

  -- No wakeup is invented and none is lost but by a post that fails.
  pub posts_are_printed :
      (first : p.Sem) {s : System p.Sem} → Reach p eintr c first s → Balanced first s
  posts_are_printed first start = omega arith
  posts_are_printed first (later r st) = Step-Balanced first st (posts_are_printed first r)

  no_posts :
      (first : p.Sem) {s : System p.Sem}
      → Reach p eintr c first s
      → c.thread ≡ false
      → timer_posts c ≡ false
      → s.posts ≡ 0
  no_posts first start no_thread no_callback = refl
  no_posts first (later r (thread_post ret g on post)) no_thread no_callback = cc
  no_posts first (later r (callback_post ret g on post)) no_thread no_callback = cc
  no_posts first (later r (main_waits ret errno g wait)) no_thread no_callback =
      no_posts first r no_thread no_callback

  -- With a timer that sends a signal, and no thread, nobody posts: with a semaphore that starts at 0
  -- `main` never prints `sem!`.
  signal_never_posts :
      (first : p.Sem) {s : System p.Sem}
      → Reach p eintr c first s
      → p.value first ≡ 0
      → c.thread ≡ false
      → c.sigenv ≡ false
      → (s.posts ≡ 0) × (sems s.printed ≡ 0)
  signal_never_posts first {s} r zero_first no_thread no_sigenv =
      let none = no_posts first r no_thread (ground arith) in
      (none, omega (arith, posts_are_printed first r, none, zero_first))
