-- ===== src/Components4/Tests.antt =====
-- The program with a semaphore that counts up to 100; EINTR is 4.
use railab_nuttx_code.Prelude.{
  ℕ, suc, ◌+◌, ◌-◌, ◌<◌, ◌≤◌, ◌≡◌, refl, true, false, [], ◌∷◌, pos, negsuc, ◌⊎◌, inl, arith,
}
use railab_nuttx_code.Components4.{
  Config, Semaphore, IsCounting, System, sem, main_round, Reach, start, later, thread_post,
  main_waits,
}
use railab_nuttx_code.Components4.Counts.{sems}
use railab_nuttx_code.Components4.Drain.{Run, posts_get_printed}

-- A call that succeeds returns 0, and one that fails -1.
abbrev up_to_100 : Semaphore
up_to_100 = record {
  Sem = ℕ;
  value = λ n. n;
  Posts = λ n ret m.
      ((n < 100) × (ret ≡ pos 0) × (m ≡ suc n)) ⊎ ((100 ≤ n) × (ret ≡ negsuc 0) × (m ≡ n));
  Waits = λ n ret errno m. ((0 < n) × (ret ≡ pos 0) × (m ≡ n - 1)) ⊎ ((ret ≡ negsuc 0) × (m ≡ n));
}

up_to_100-IsCounting : IsCounting up_to_100
up_to_100-IsCounting = record {
  post_counts = λ s t ret post ok. ground arith;
  post_fails = λ s t ret post failed. ground arith;
  wait_takes = λ s t ret errno wait ok. ground arith;
  wait_fails = λ s t ret errno wait failed. ground arith;
  wait_returns = λ s some_left. (s - 1, inl (some_left, refl, refl));
}

abbrev with_thread : Config
with_thread = record { thread = true; posixtimer = false; sigenv = false }

abbrev printed_once : System ℕ
printed_once = record { g_sem = 1; printed = sem ∷ []; posts = 2; dropped = 0 }

printed_once-Reach : Reach up_to_100 4 with_thread 0 printed_once
unfolding main_round
printed_once-Reach =
    later
      (later (later start (thread_post (pos 0) 1 refl (inl (omega arith, refl, refl))))
        (thread_post (pos 0) 2 refl (inl (omega arith, refl, refl))))
      (main_waits (pos 0) 0 1 (inl (omega arith, refl, refl)))

posts_get_printed_example :
    (0 + printed_once.posts ≡ printed_once.g_sem + sems printed_once.printed + printed_once.dropped)
    × (printed_once.dropped ≤ printed_once.posts)
    × ((t : System ℕ) × Run up_to_100 4 with_thread printed_once t
        × (t.posts ≡ printed_once.posts)
        × (t.g_sem ≡ 0)
        × (0 + printed_once.posts ≡ sems t.printed + printed_once.dropped))
posts_get_printed_example =
    posts_get_printed up_to_100 4 with_thread up_to_100-IsCounting 0 printed_once-Reach
