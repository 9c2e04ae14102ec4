-- ===== src/Components3/Guarded/Refinement.antt =====
-- The variants with a lock do nothing that the atomic one cannot.
use railab_nuttx_code.Prelude.{ℕ, ◌≡◌, refl, ap, map, some, get_elem?, set, replicate, arith}
use railab_nuttx_code.Components3.Threads.{threads, get_elem?-map, map-set, map-set_same}
use railab_nuttx_code.Components3.Guarded.Locks.{Guard}
use railab_nuttx_code.Components3.Atomic
use railab_nuttx_code.Components3.Atomic.Ends.{atomic_ends_after_all}
use railab_nuttx_code.Components3.Guarded.{
  ThreadPc, fresh, loading, storing, unlocking, finished, MainPc, asleep, reading, holding, ended,
  System, ThreadStep, thread_lock, thread_load, thread_store, thread_unlock, MainStep, main_lock,
  main_read, main_again, main_end, Reach, created, by_thread, by_main,
}
use railab_nuttx_code.Components3.Guarded.Counts.{main_seen}
use railab_nuttx_code.Components3.Guarded.Invariant.{Inv, Reach-Inv}

-- The thread as the atomic variant has it: its count happens when it stores.
abbrev pub atomic_pc : ThreadPc → Atomic.ThreadPc
atomic_pc fresh = Atomic.fresh
atomic_pc loading = Atomic.fresh
atomic_pc (storing v) = Atomic.fresh
atomic_pc unlocking = Atomic.finished
atomic_pc finished = Atomic.finished

abbrev pub atomic_main : MainPc → Atomic.MainPc
atomic_main asleep = Atomic.polling
atomic_main reading = Atomic.polling
atomic_main (holding tmp) = Atomic.polling
atomic_main ended = Atomic.ended

module _ (g : Guard) where
  abbrev pub atomic_view : System g → Atomic.System
  atomic_view s = record { g_val = s.g_val; main = atomic_main s.main; pcs = map atomic_pc s.pcs }

  -- A thread's move that the view does not show.
  hidden :
      (s : System g) (i : ℕ) (p q : ThreadPc)
      → get_elem? s.pcs i ≡ some p
      → atomic_pc p ≡ atomic_pc q
      → Atomic.Reach (atomic_view s)
      → Atomic.Reach (atomic_view (record s { pcs = set s.pcs i q }))
  hidden s i p q e same r = rw (map-set_same atomic_pc s.pcs i p q e same) r

  -- A move of `main` that the view does not show.
  hidden_main :
      (s : System g) (m : MainPc)
      → atomic_main s.main ≡ atomic_main m
      → Atomic.Reach (atomic_view s)
      → Atomic.Reach (atomic_view (record s { main = m }))
  hidden_main s m same r = rw (← same) r

  thread_view :
      {s t : System g}
      → ThreadStep g s t
      → Inv g s
      → Atomic.Reach (atomic_view s)
      → Atomic.Reach (atomic_view t)
  thread_view {s} (thread_lock i l e lock) k r = hidden s i fresh loading e refl r
  thread_view {s} (thread_load i e) k r = hidden s i loading (storing s.g_val) e refl r
  thread_view {s} (thread_store i v e) k r =
      rw (k.current i v e, map-set atomic_pc s.pcs i unlocking)
        (Atomic.later r (Atomic.fetch_add i (get_elem?-map atomic_pc s.pcs i (storing v) e)))
  thread_view {s} (thread_unlock i e) k r = hidden s i unlocking finished e refl r

  main_view :
      {s t : System g}
      → MainStep g s t
      → Inv g s
      → Atomic.Reach (atomic_view s)
      → Atomic.Reach (atomic_view t)
  main_view {s} (main_lock l at lock) k r = hidden_main s reading (ap atomic_main at) r
  main_view {s} (main_read at) k r = hidden_main s (holding s.g_val) (ap atomic_main at) r
  main_view {s} (main_again tmp at below) k r = hidden_main s asleep (ap atomic_main at) r
  main_view {s} (main_end tmp at enough) k r =
      Atomic.later r (Atomic.load_end (ap atomic_main at) (omega (arith, k.seen, ap main_seen at)))

  -- Whatever lock it is: every reachable state, seen without the lock and with the count at the store,
  -- is one that the atomic variant can reach. No count is lost between a load and a store.
  pub guarded_refines_atomic : {s : System g} → Reach g s → Atomic.Reach (atomic_view s)
  guarded_refines_atomic created = Atomic.created
  guarded_refines_atomic (by_thread r st) =
      thread_view st (Reach-Inv g r) (guarded_refines_atomic r)
  guarded_refines_atomic (by_main r st) = main_view st (Reach-Inv g r) (guarded_refines_atomic r)

  -- Whatever lock it is: in every reachable state in which `main` has ended, `g_val` is 3 and each of
  -- the three threads has stored its count.
  guarded_ends_after_all :
      {s : System g}
      → Reach g s
      → s.main ≡ ended
      → (s.g_val ≡ threads) × (map atomic_pc s.pcs ≡ replicate threads Atomic.finished)
  guarded_ends_after_all r at = atomic_ends_after_all (guarded_refines_atomic r) (ap atomic_main at)
