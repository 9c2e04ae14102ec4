-- ===== src/Components3/Tests/Locked.antt =====
-- The other variants at concrete states: atomic, with a mutex, with a read-write lock, and plain.
use railab_nuttx_code.Prelude.{◌≡◌, refl, true, false, [], ◌∷◌, arith}
use railab_nuttx_code.Components3.Atomic
use railab_nuttx_code.Components3.Atomic.Ends.{atomic_ends_after_all}
use railab_nuttx_code.Components3.Guarded.Locks.{mutex, rwlock}
use railab_nuttx_code.Components3.Guarded.{
  fresh, unlocking, asleep, reading, ended, System, Reach, Run, created, by_thread, by_main,
  thread_lock, thread_load, thread_store, main_lock,
}
use railab_nuttx_code.Components3.Guarded.Refinement.{guarded_refines_atomic, atomic_view}
use railab_nuttx_code.Components3.Guarded.Ending.{guarded_can_end}

abbrev all_added : Atomic.System
all_added = record {
  g_val = 3;
  main = Atomic.ended;
  pcs = Atomic.finished ∷ Atomic.finished ∷ Atomic.finished ∷ [];
}

all_added-Reach : Atomic.Reach all_added
all_added-Reach =
    Atomic.later
      (Atomic.later
        (Atomic.later (Atomic.later Atomic.created (Atomic.fetch_add 1 refl))
          (Atomic.fetch_add 0 refl))
        (Atomic.fetch_add 2 refl))
      (Atomic.load_end refl (omega arith))

atomic_ends_after_all_example :
    (all_added.g_val ≡ 3)
    × (all_added.pcs ≡ Atomic.finished ∷ Atomic.finished ∷ Atomic.finished ∷ [])
atomic_ends_after_all_example = atomic_ends_after_all all_added-Reach refl

-- Thread 1 has stored and holds the mutex.
abbrev stored : System mutex
stored = record { g_val = 1; lock = true; main = asleep; pcs = fresh ∷ unlocking ∷ fresh ∷ [] }

stored-Reach : Reach mutex stored
stored-Reach =
    by_thread
      (by_thread (by_thread created (thread_lock 1 true refl (refl, refl))) (thread_load 1 refl))
      (thread_store 1 0 refl)

guarded_refines_atomic_example : Atomic.Reach (atomic_view mutex stored)
guarded_refines_atomic_example = guarded_refines_atomic mutex stored-Reach

-- `main` is in for reading.
abbrev read_locked : System rwlock
read_locked = record {
  g_val = 0;
  lock = record { writer = false; readers = 1 };
  main = reading;
  pcs = fresh ∷ fresh ∷ fresh ∷ [];
}

read_locked-Reach : Reach rwlock read_locked
read_locked-Reach = by_main created (main_lock _ refl (refl, refl))

guarded_can_end_example : (t : System rwlock) × Run rwlock read_locked t × (t.main ≡ ended)
guarded_can_end_example = guarded_can_end rwlock read_locked-Reach
