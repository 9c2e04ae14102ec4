-- ===== src/Components3/Cond/Wakeup.antt =====
-- That `main` ends only when every thread has counted, and that it never sleeps for good.
use railab_nuttx_code.Prelude.{
  ℕ, zero, suc, ◌<◌, ◌≤◌, ◌≡◌, refl, ap, false, List, [], ◌∷◌, some, length, get_elem?, arith, inl,
  inr, Bool-cases,
}
use railab_nuttx_code.Components3.Threads.{threads, total, total_member, total_bound}
use railab_nuttx_code.Components3.Cond.{
  ThreadPc, fresh, loading, storing, signalling, unlocking, finished, sleeping, ended, System,
  ThreadStep, thread_lock, thread_load, thread_store, thread_signal, thread_unlock, Reach,
}
use railab_nuttx_code.Components3.Cond.Counts.{
  counted, holds, pending, main_holds, main_sleeps, main_ended, held, counted_bound,
}
use railab_nuttx_code.Components3.Cond.Invariant.{Reach-Inv}

-- A thread that holds the mutex can go on, whatever else happens.
pub holder_steps :
    (s : System) (i : ℕ) (p : ThreadPc)
    → get_elem? s.pcs i ≡ some p
    → 1 ≤ holds p
    → (t : System) × ThreadStep s t
holder_steps s i fresh e h = absurd (omega arith)
holder_steps s i loading e h = (_, thread_load i e)
holder_steps s i (storing v) e h = (_, thread_store i v e)
holder_steps s i signalling e h = (_, thread_signal i e)
holder_steps s i unlocking e h = (_, thread_unlock i e)
holder_steps s i finished e h = absurd (omega arith)

-- A thread that has not signalled and does not hold the mutex can take it when it is free.
pending_steps :
    (s : System) (i : ℕ) (p : ThreadPc)
    → get_elem? s.pcs i ≡ some p
    → 1 ≤ pending p
    → holds p ≡ 0
    → s.g_mut ≡ false
    → (t : System) × ThreadStep s t
pending_steps s i fresh e h n free = (_, thread_lock i e free)
pending_steps s i loading e h n free = absurd (omega arith)
pending_steps s i (storing v) e h n free = absurd (omega arith)
pending_steps s i signalling e h n free = absurd (omega arith)
pending_steps s i unlocking e h n free = absurd (omega arith)
pending_steps s i finished e h n free = absurd (omega arith)

counted_one : (p : ThreadPc) → counted p ≤ 1
counted_one fresh = omega arith
counted_one loading = omega arith
counted_one (storing v) = omega arith
counted_one signalling = omega arith
counted_one unlocking = omega arith
counted_one finished = omega arith

all_counted :
    (ps : List ThreadPc) (i : ℕ)
    → length ps ≤ total counted ps
    → i < length ps
    → (p : ThreadPc) × (get_elem? ps i ≡ some p) × (counted p ≡ 1)
all_counted [] i h b = absurd (omega arith)
all_counted (x ∷ ps) zero h b = (x, refl, omega (arith, counted_one x, counted_bound ps))
all_counted (x ∷ ps) (suc i) h b = all_counted ps i (omega (arith, counted_one x)) (omega arith)

-- In every reachable state in which `main` has ended, `g_val` is 3, and each of the three threads
-- is past its `g_val++`.
ended_after_all :
    {s : System} (i : ℕ)
    → Reach s
    → s.main ≡ ended
    → i < threads
    → (s.g_val ≡ threads) × (p : ThreadPc) × (get_elem? s.pcs i ≡ some p) × (counted p ≡ 1)
ended_after_all {s} i r at h =
    let k = Reach-Inv r in
    let d = ap main_ended at in
    let b = counted_bound s.pcs in
    let (p, e, one) =
      all_counted s.pcs i (omega (arith, k.value, k.end, d, k.all, b)) (omega (arith, k.all)) in
    (omega (arith, k.value, k.end, d, k.all, b), p, e, one)

-- No wakeup is lost: in every reachable state in which `main` waits on the condition variable, a
-- counting thread can take a step.
pub no_lost_wakeup : {s : System} → Reach s → s.main ≡ sleeping → (t : System) × ThreadStep s t
no_lost_wakeup {s} r at =
    let k = Reach-Inv r in
    let h = ap main_holds at in
    let w = ap main_sleeps at in
    elim (Bool-cases s.g_mut) [
      | inl taken ↦
          let (i, p, e, one) =
            total_member holds s.pcs (omega (arith, k.mutex, h, ap held taken)) in
          holder_steps s i p e one
      | inr free ↦
          let (i, p, e, one) = total_member pending s.pcs (omega (arith, k.wakeup, w)) in
          pending_steps s i p e one
            (omega (arith, total_bound holds s.pcs i p e, k.mutex, h, ap held free)) free
    ]
