-- ===== src/Components3/Cond/Ending.antt =====
-- How long the variant with a condition variable can go on: what every step of a thread and of
-- `main` uses up.
use railab_nuttx_code.Prelude.{
  ℕ, suc, ◌+◌, ◌*◌, ◌<◌, ◌≤◌, ◌≡◌, refl, ap, Bool-cases, false, arith, ◌⊎◌, inl, inr,
}
use railab_nuttx_code.Components3.Threads.{total, total-set, total_member}
use railab_nuttx_code.Components3.Cond.{
  ThreadPc, fresh, loading, storing, signalling, unlocking, finished, MainPc, entering, testing,
  sleeping, woken, ended, System, signal, threads_init, ThreadStep, thread_lock, thread_load,
  thread_store, thread_signal, thread_unlock, MainStep, main_lock, main_wait, main_spurious,
  main_wake, main_leave, Reach, created, by_thread, by_main,
}
use railab_nuttx_code.Components3.Cond.Counts.{holds, main_holds, held}
use railab_nuttx_code.Components3.Cond.Invariant.{Reach-Inv}
use railab_nuttx_code.Components3.Cond.Wakeup.{holder_steps, no_lost_wakeup}

-- The waits that ended without a signal, counted on over a step of `main`.
abbrev pub spurious : {s t : System} → MainStep s t → ℕ → ℕ
spurious (main_lock at free) k = k
spurious (main_wait at below) k = k
spurious (main_spurious at) k = suc k
spurious (main_wake at free) k = k
spurious (main_leave at enough) k = k

-- A run with its steps counted: all of them, and the waits that ended without a signal.
pub data Steps : System → ℕ → ℕ → Type 0 where
  start : Steps threads_init 0 0
  then_thread : {s t : System} {n k : ℕ} → Steps s n k → ThreadStep s t → Steps t (suc n) k
  then_main :
      {s t : System} {n k : ℕ} → Steps s n k → (st : MainStep s t) → Steps t (suc n) (spurious st k)

Steps-Reach : {s : System} {n k : ℕ} → Steps s n k → Reach s
Steps-Reach start = created
Steps-Reach (then_thread r st) = by_thread (Steps-Reach r) st
Steps-Reach (then_main r st) = by_main (Steps-Reach r) st

-- The steps that a thread can still bring about: its own, and the three of `main` that its signal
-- allows for.
abbrev allowed : ThreadPc → ℕ
allowed fresh = 7
allowed loading = 6
allowed (storing v) = 5
allowed signalling = 4
allowed unlocking = 1
allowed finished = 0

-- The steps of `main` up to the next wait.
abbrev ahead : MainPc → ℕ
ahead entering = 2
ahead testing = 1
ahead sleeping = 0
ahead woken = 2
ahead ended = 0

ahead-signal : (m : MainPc) → ahead (signal m) ≤ ahead m + 2
ahead-signal entering = omega arith
ahead-signal testing = omega arith
ahead-signal sleeping = omega arith
ahead-signal woken = omega arith
ahead-signal ended = omega arith

abbrev budget : System → ℕ
budget s = total allowed s.pcs + ahead s.main

ThreadStep-budget : {s t : System} → ThreadStep s t → suc (budget t) ≤ budget s
ThreadStep-budget {s} (thread_lock i e free) =
    omega (arith, total-set allowed s.pcs i fresh loading e)
ThreadStep-budget {s} (thread_load i e) =
    omega (arith, total-set allowed s.pcs i loading (storing s.g_val) e)
ThreadStep-budget {s} (thread_store i v e) =
    omega (arith, total-set allowed s.pcs i (storing v) signalling e)
ThreadStep-budget {s} (thread_signal i e) =
    omega (arith, total-set allowed s.pcs i signalling unlocking e, ahead-signal s.main)
ThreadStep-budget {s} (thread_unlock i e) =
    omega (arith, total-set allowed s.pcs i unlocking finished e)

MainStep-budget :
    {s t : System} (st : MainStep s t) (k : ℕ)
    → suc (budget t) + 3 * k ≤ budget s + 3 * spurious st k
MainStep-budget (main_lock at free) k = omega (arith, ap ahead at)
MainStep-budget (main_wait at below) k = omega (arith, ap ahead at)
MainStep-budget (main_spurious at) k = omega (arith, ap ahead at)
MainStep-budget (main_wake at free) k = omega (arith, ap ahead at)
MainStep-budget (main_leave at enough) k = omega (arith, ap ahead at)

Steps-budget : {s : System} {n k : ℕ} → Steps s n k → n + budget s ≤ 23 + 3 * k
Steps-budget start = omega arith
Steps-budget (then_thread r st) = omega (arith, Steps-budget r, ThreadStep-budget st)
Steps-budget (then_main {k} r st) = omega (arith, Steps-budget r, MainStep-budget st k)

-- While `main` is not in, the mutex is free or a thread that holds it can go on.
free_or_steps :
    {s : System}
    → Reach s
    → main_holds s.main ≡ 0
    → (s.g_mut ≡ false) ⊎ ((t : System) × ThreadStep s t)
free_or_steps {s} r out = elim (Bool-cases s.g_mut) [
  | inl taken ↦
      let k = Reach-Inv r in
      let (i, p, e, one) = total_member holds s.pcs (omega (arith, k.mutex, out, ap held taken)) in
      inr (holder_steps s i p e one)
  | inr free ↦ inl free
]

-- `main` by where it stands, which is given as an equation.
goes_on :
    {s : System} {n k : ℕ} (m : MainPc)
    → Steps s n k
    → s.main ≡ m
    → (s.main ≡ ended) ⊎ ((t : System) × Steps t (suc n) k)
goes_on entering r at = inr (elim (free_or_steps (Steps-Reach r) (ap main_holds at)) [
  | inl free ↦ (_, then_main r (main_lock at free))
  | inr (t, st) ↦ (t, then_thread r st)
])
goes_on {s} testing r at =
    let c : (s.g_val < 3) ⊎ (3 ≤ s.g_val) = omega arith in
    inr (elim c [
      | inl below ↦ (_, then_main r (main_wait at below))
      | inr enough ↦ (_, then_main r (main_leave at enough))
    ])
goes_on sleeping r at = let (t, st) = no_lost_wakeup (Steps-Reach r) at in inr (t, then_thread r st)
goes_on woken r at = inr (elim (free_or_steps (Steps-Reach r) (ap main_holds at)) [
  | inl free ↦ (_, then_main r (main_wake at free))
  | inr (t, st) ↦ (t, then_thread r st)
])
goes_on ended r at = inl at

-- A run in which `k` waits of `main` end without a signal has at most 23 + 3 * k steps. At each
-- point of it `main` has ended, or the run goes on with a step that is no such end of a wait.
pub cond_terminates :
    {s : System} {n k : ℕ}
    → Steps s n k
    → (n ≤ 23 + 3 * k) × ((s.main ≡ ended) ⊎ ((t : System) × Steps t (suc n) k))
cond_terminates {s} r = (omega (arith, Steps-budget r), goes_on s.main r refl)
