-- ===== src/Components3/Tests.antt =====
-- The theorems on the counting threads with a condition variable, along one run: `main` goes to sleep
-- first.
mod Locked
use railab_nuttx_code.Prelude.{
  ℕ, ◌+◌, ◌*◌, ◌≤◌, ◌≡◌, ◌⊎◌, refl, true, false, List, [], ◌∷◌, some, get_elem?, arith,
}
use railab_nuttx_code.Components3.Cond.{
  ThreadPc, fresh, loading, finished, sleeping, woken, ended, System, ThreadStep, thread_lock,
  thread_load, thread_store, thread_signal, thread_unlock, main_lock, main_wait, main_spurious,
  main_wake, main_leave, Reach, created, by_thread, by_main,
}
use railab_nuttx_code.Components3.Threads.{total}
use railab_nuttx_code.Components3.Cond.Counts.{counted}
use railab_nuttx_code.Components3.Atomic
use railab_nuttx_code.Components3.Cond.Refinement.{atomic_view, cond_refines_atomic}
use railab_nuttx_code.Components3.Cond.Ending.{
  Steps, start, then_thread, then_main, cond_terminates,
}

abbrev at : ℕ → List ThreadPc → System
at g_val pcs = record { g_val = g_val; g_mut = false; main = sleeping; pcs = pcs }

abbrev locked : System
locked = record { g_val = 0; g_mut = true; main = sleeping; pcs = loading ∷ fresh ∷ fresh ∷ [] }

asleep : Reach (at 0 (fresh ∷ fresh ∷ fresh ∷ []))
asleep = by_main (by_main created (main_lock refl refl)) (main_wait refl (omega arith))

first_lock : ThreadStep (at 0 (fresh ∷ fresh ∷ fresh ∷ [])) locked
first_lock = thread_lock 0 refl refl

-- `main` goes to sleep, is woken without a signal, goes to sleep again, and a thread takes the
-- mutex.
early : Steps locked 6 1
early =
    then_thread
      (then_main
        (then_main
          (then_main
            (then_main (then_main start (main_lock refl refl)) (main_wait refl (omega arith)))
            (main_spurious refl))
          (main_wake refl refl))
        (main_wait refl (omega arith)))
      first_lock

cond_terminates_example : (6 ≤ 23 + 3 * 1) × ((locked.main ≡ ended) ⊎ ((t : System) × Steps t 7 1))
cond_terminates_example = cond_terminates early

-- The whole run of the thread `i`, while `main` waits to take the mutex or sleeps.
first_done :
    Reach (record { g_val = 1; g_mut = false; main = woken; pcs = finished ∷ fresh ∷ fresh ∷ [] })
first_done =
    by_thread
      (by_thread
        (by_thread (by_thread (by_thread asleep first_lock) (thread_load 0 refl))
          (thread_store 0 0 refl))
        (thread_signal 0 refl))
      (thread_unlock 0 refl)

second_done :
    Reach
      (record { g_val = 2; g_mut = false; main = woken; pcs = finished ∷ finished ∷ fresh ∷ [] })
second_done =
    by_thread
      (by_thread
        (by_thread (by_thread (by_thread first_done (thread_lock 1 refl refl)) (thread_load 1 refl))
          (thread_store 1 1 refl))
        (thread_signal 1 refl))
      (thread_unlock 1 refl)

third_done :
    Reach
      (record { g_val = 3; g_mut = false; main = woken; pcs = finished ∷ finished ∷ finished ∷ [] })
third_done =
    by_thread
      (by_thread
        (by_thread
          (by_thread (by_thread second_done (thread_lock 2 refl refl)) (thread_load 2 refl))
          (thread_store 2 2 refl))
        (thread_signal 2 refl))
      (thread_unlock 2 refl)

abbrev last : System
last = record { g_val = 3; g_mut = false; main = ended; pcs = finished ∷ finished ∷ finished ∷ [] }

last-Reach : Reach last
last-Reach = by_main (by_main third_done (main_wake refl refl)) (main_leave refl (omega arith))

cond_refines_atomic_example : Atomic.Reach (atomic_view last)
cond_refines_atomic_example = cond_refines_atomic last-Reach
