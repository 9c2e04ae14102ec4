-- ===== src/Components4/Drain.antt =====
-- What `main` still prints when nobody posts any more.
use railab_nuttx_code.Prelude.{ℕ, zero, suc, ◌+◌, ◌≤◌, ◌≡◌, refl, pos, arith}
use railab_nuttx_code.Components4.{
  Config, Semaphore, IsCounting, System, Step, main_waits, Reach, later,
}
use railab_nuttx_code.Components4.Counts.{sems, posts_are_printed}

module _ (p : Semaphore) (eintr : ℕ) (c : Config) where
  -- Steps of the program from one state to another.
  pub data Run (s : System p.Sem) : System p.Sem → Type 0 where
    here : Run s s
    further : {t u : System p.Sem} → Run s t → Step p eintr c t u → Run s u

  Run-Reach :
      (first : p.Sem) {s t : System p.Sem}
      → Reach p eintr c first s
      → Run s t
      → Reach p eintr c first t
  Run-Reach first r here = r
  Run-Reach first r (further run st) = later (Run-Reach first r run) st

  module _ (k : IsCounting p) where
    drain :
        (n : ℕ) {s t : System p.Sem}
        → Run s t
        → p.value t.g_sem ≡ n
        → (u : System p.Sem) × Run s u
          × (u.posts ≡ t.posts)
          × (u.dropped ≡ t.dropped)
          × (p.value u.g_sem ≡ 0)
    drain zero {s} {t} run e = (t, run, refl, refl, e)
    drain (suc n) {s} {t} run e =
        let (g, wait) = k.wait_returns t.g_sem (omega arith) in
        let (u, run', posts, dropped, empty) =
          drain n (further run (main_waits (pos 0) 0 g wait))
            (omega (arith, k.wait_takes t.g_sem g (pos 0) 0 wait refl)) in
        (u, run', posts, dropped, empty)

    -- With a semaphore that counts as POSIX says: no wakeup is invented, and none is lost but by a post
    -- that fails. In every reachable state the first value and the posts are what the semaphore holds, the
    -- lines `sem!` that were printed and the posts that failed, which are no more than the posts; and there
    -- are steps without a further post, after which the semaphore is 0, and every post so far that did not
    -- fail and every unit of the first value has its line `sem!`.
    pub posts_get_printed :
        (first : p.Sem) {s : System p.Sem}
        → Reach p eintr c first s
        → (p.value first + s.posts ≡ p.value s.g_sem + sems s.printed + s.dropped)
          × (s.dropped ≤ s.posts)
          × ((t : System p.Sem) × Run s t
              × (t.posts ≡ s.posts)
              × (p.value t.g_sem ≡ 0)
              × (p.value first + s.posts ≡ sems t.printed + s.dropped))
    posts_get_printed first {s} r =
        let (t, run, posts, dropped, empty) = drain (p.value s.g_sem) here refl in
        let now = posts_are_printed p k eintr c first r in
        let then_ = posts_are_printed p k eintr c first (Run-Reach first r run) in
        (now.0, now.1, (t, run, posts, empty, omega (arith, then_, posts, dropped, empty)))
