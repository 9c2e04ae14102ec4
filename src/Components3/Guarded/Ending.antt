-- ===== src/Components3/Guarded/Ending.antt =====
-- The way from every state of the variants with a lock to their end.
use railab_nuttx_code.Prelude.{
  ℕ, zero, suc, ◌+◌, ◌<◌, ◌≤◌, ◌≡◌, refl, ap, ◌∙◌, List, [], ◌∷◌, some, length, get_elem?, arith,
  ◌⊎◌, inl, inr,
}
use railab_nuttx_code.Components3.Threads.{threads, total, total-set, total_bound, total_member}
use railab_nuttx_code.Components3.Guarded.Locks.{Guard}
use railab_nuttx_code.Components3.Guarded.{
  ThreadPc, fresh, loading, storing, unlocking, finished, MainPc, asleep, reading, holding, ended,
  System, ThreadStep, thread_lock, thread_load, thread_store, thread_unlock, main_lock, main_read,
  main_again, main_end, Reach, Run, here, thread_then, main_then,
}
use railab_nuttx_code.Components3.Guarded.Counts.{counted, writing, main_reads}
use railab_nuttx_code.Components3.Guarded.Invariant.{Inv, ThreadStep-Inv, MainStep-Inv, Reach-Inv}

-- The steps that a thread has left.
abbrev left : ThreadPc → ℕ
left fresh = 4
left loading = 3
left (storing v) = 2
left unlocking = 1
left finished = 0

abbrev uncounted : ThreadPc → ℕ
uncounted fresh = 1
uncounted loading = 1
uncounted (storing v) = 1
uncounted unlocking = 0
uncounted finished = 0

counted_or_not : (ps : List ThreadPc) → total counted ps + total uncounted ps ≡ length ps
counted_or_not [] = omega arith
counted_or_not (fresh ∷ ps) = omega (arith, counted_or_not ps)
counted_or_not (loading ∷ ps) = omega (arith, counted_or_not ps)
counted_or_not (storing v ∷ ps) = omega (arith, counted_or_not ps)
counted_or_not (unlocking ∷ ps) = omega (arith, counted_or_not ps)
counted_or_not (finished ∷ ps) = omega (arith, counted_or_not ps)

module _ (g : Guard) where
  -- A thread that is in can go on.
  writer_steps :
      (s : System g) (i : ℕ) (p : ThreadPc)
      → get_elem? s.pcs i ≡ some p
      → 1 ≤ writing p
      → (t : System g) × ThreadStep g s t
  writer_steps s i fresh e h = absurd (omega arith)
  writer_steps s i loading e h = (_, thread_load i e)
  writer_steps s i (storing v) e h = (_, thread_store i v e)
  writer_steps s i unlocking e h = (_, thread_unlock i e)
  writer_steps s i finished e h = absurd (omega arith)

  -- With nobody in, a thread that has not counted can take the lock.
  fresh_steps :
      (s : System g) (i : ℕ) (p : ThreadPc)
      → get_elem? s.pcs i ≡ some p
      → 1 ≤ uncounted p
      → writing p ≡ 0
      → g.Counts s.lock 0 0
      → (t : System g) × ThreadStep g s t
  fresh_steps s i fresh e h n free =
      let (l, lock) = g.write_free s.lock free in (_, thread_lock i l e lock)
  fresh_steps s i loading e h n free = absurd (omega arith)
  fresh_steps s i (storing v) e h n free = absurd (omega arith)
  fresh_steps s i unlocking e h n free = absurd (omega arith)
  fresh_steps s i finished e h n free = absurd (omega arith)

  -- While `main` sleeps and a thread is in or has not counted, some thread can take a step.
  guarded_thread_steps :
      {s : System g}
      → Inv g s
      → s.main ≡ asleep
      → (1 ≤ total writing s.pcs) ⊎ (s.g_val < threads)
      → (t : System g) × ThreadStep g s t
  guarded_thread_steps {s} k at todo =
      let c : (1 ≤ total writing s.pcs) ⊎ (total writing s.pcs ≡ 0) = omega arith in
      elim c [
        | inl busy ↦
            let (i, p, e, one) = total_member writing s.pcs busy in writer_steps s i p e one
        | inr quiet ↦
            let u = counted_or_not s.pcs in
            let some_left : 1 ≤ total uncounted s.pcs =
              omega (arith, u, k.value, k.all, todo, quiet) in
            let (i, p, e, one) = total_member uncounted s.pcs some_left in
            fresh_steps s i p e one (omega (arith, total_bound writing s.pcs i p e, quiet))
              (rw (quiet, ap main_reads at) at k.inside)
      ]

  -- A step of a thread leaves `main` alone and uses up one of its four steps.
  ThreadStep-left :
      {s t : System g}
      → ThreadStep g s t
      → (t.main ≡ s.main) × (total left t.pcs + 1 ≡ total left s.pcs)
  ThreadStep-left {s} (thread_lock i l e lock) =
      (refl, omega (arith, total-set left s.pcs i fresh loading e))
  ThreadStep-left {s} (thread_load i e) =
      (refl, omega (arith, total-set left s.pcs i loading (storing s.g_val) e))
  ThreadStep-left {s} (thread_store i v e) =
      (refl, omega (arith, total-set left s.pcs i (storing v) unlocking e))
  ThreadStep-left {s} (thread_unlock i e) =
      (refl, omega (arith, total-set left s.pcs i unlocking finished e))

  -- The last round of `main`.
  last_round :
      (s : System g)
      → s.main ≡ asleep
      → 3 ≤ s.g_val
      → g.Counts s.lock 0 0
      → (t : System g) × Run g s t × (t.main ≡ ended)
  last_round s at enough free =
      let (l, lock) = g.read_free s.lock free in
      (
        _,
        main_then (main_lock l at lock)
            (main_then (main_read refl) (main_then (main_end s.g_val refl enough) here)),
        refl,
      )

  todo_or_over :
      (s : System g)
      → ((1 ≤ total writing s.pcs) ⊎ (s.g_val < threads))
        ⊎ ((total writing s.pcs ≡ 0) × (3 ≤ s.g_val))
  todo_or_over s = omega arith

  -- As long as there is something to do the threads do it, with `main` asleep; then `main` ends.
  finish_asleep :
      (n : ℕ) (s : System g)
      → Inv g s
      → s.main ≡ asleep
      → total left s.pcs < n
      → (t : System g) × Run g s t × (t.main ≡ ended)
  finish_asleep zero s k at bound = absurd (omega arith)
  finish_asleep (suc n) s k at bound = elim (todo_or_over s) [
    | inl todo ↦
        let (t, st) = guarded_thread_steps k at todo in
        let (same, fewer) = ThreadStep-left st in
        let (u, run, end) =
          finish_asleep n t (ThreadStep-Inv g st k) (same ∙ at) (omega (arith, fewer)) in
        (u, thread_then st run, end)
    | inr over ↦ last_round s at over.1 (rw (over.0, ap main_reads at) at k.inside)
  ]

  asleep_can_end :
      (s : System g) → Inv g s → s.main ≡ asleep → (t : System g) × Run g s t × (t.main ≡ ended)
  asleep_can_end s k at = finish_asleep (suc (total left s.pcs)) s k at (omega arith)

  holding_can_end :
      (s : System g) (tmp : ℕ)
      → Inv g s
      → s.main ≡ holding tmp
      → (t : System g) × Run g s t × (t.main ≡ ended)
  holding_can_end s tmp k at =
      let c : (tmp < 3) ⊎ (3 ≤ tmp) = omega arith in
      elim c [
        | inl below ↦
            let st = main_again tmp at below in
            let (u, run, end) = asleep_can_end _ (MainStep-Inv g st k) refl in
            (u, main_then st run, end)
        | inr enough ↦ (_, main_then (main_end tmp at enough) here, refl)
      ]

  -- `main` by where it stands, which is given as an equation.
  can_end_at :
      (s : System g) (m : MainPc)
      → Inv g s
      → s.main ≡ m
      → (t : System g) × Run g s t × (t.main ≡ ended)
  can_end_at s asleep k at = asleep_can_end s k at
  can_end_at s reading k at =
      let st = main_read at in
      let (u, run, end) = holding_can_end _ s.g_val (MainStep-Inv g st k) refl in
      (u, main_then st run, end)
  can_end_at s (holding tmp) k at = holding_can_end s tmp k at
  can_end_at s ended k at = (s, here, at)

  -- Whatever lock it is, the program is never stuck: from every reachable state there are steps that
  -- bring `main` to its end.
  pub guarded_can_end : {s : System g} → Reach g s → (t : System g) × Run g s t × (t.main ≡ ended)
  guarded_can_end {s} r = can_end_at s s.main (Reach-Inv g r) refl
