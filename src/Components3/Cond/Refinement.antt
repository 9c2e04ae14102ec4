-- ===== src/Components3/Cond/Refinement.antt =====
-- The variant with a condition variable does nothing that the atomic one cannot.
use railab_nuttx_code.Prelude.{ℕ, ◌≡◌, refl, ap, map, some, get_elem?, set}
use railab_nuttx_code.Components3.Threads.{get_elem?-map, map-set, map-set_same}
use railab_nuttx_code.Components3.Atomic
use railab_nuttx_code.Components3.Cond.{
  ThreadPc, fresh, loading, storing, signalling, unlocking, finished, MainPc, entering, testing,
  sleeping, woken, ended, System, signal, ThreadStep, thread_lock, thread_load, thread_store,
  thread_signal, thread_unlock, MainStep, main_lock, main_wait, main_spurious, main_wake,
  main_leave, Reach, created, by_thread, by_main,
}
use railab_nuttx_code.Components3.Cond.Invariant.{Inv, Reach-Inv}

-- The thread as the atomic variant has it: its count happens when it stores.
abbrev pub atomic_pc : ThreadPc → Atomic.ThreadPc
atomic_pc fresh = Atomic.fresh
atomic_pc loading = Atomic.fresh
atomic_pc (storing v) = Atomic.fresh
atomic_pc signalling = Atomic.finished
atomic_pc unlocking = Atomic.finished
atomic_pc finished = Atomic.finished

abbrev pub atomic_main : MainPc → Atomic.MainPc
atomic_main entering = Atomic.polling
atomic_main testing = Atomic.polling
atomic_main sleeping = Atomic.polling
atomic_main woken = Atomic.polling
atomic_main ended = Atomic.ended

abbrev pub atomic_view : System → Atomic.System
atomic_view s = record { g_val = s.g_val; main = atomic_main s.main; pcs = map atomic_pc s.pcs }

atomic_main-signal : (m : MainPc) → atomic_main (signal m) ≡ atomic_main m
atomic_main-signal entering = refl
atomic_main-signal testing = refl
atomic_main-signal sleeping = refl
atomic_main-signal woken = refl
atomic_main-signal ended = refl

-- A move that the view does not show: of a thread, which may signal, and of `main`.
hidden :
    (s : System) (m : MainPc) (i : ℕ) (p q : ThreadPc)
    → get_elem? s.pcs i ≡ some p
    → atomic_pc p ≡ atomic_pc q
    → atomic_main m ≡ atomic_main s.main
    → Atomic.Reach (atomic_view s)
    → Atomic.Reach (atomic_view (record s { main = m; pcs = set s.pcs i q }))
hidden s m i p q e same at r = rw (map-set_same atomic_pc s.pcs i p q e same, at) r

hidden_main :
    (s : System) (m : MainPc)
    → atomic_main s.main ≡ atomic_main m
    → Atomic.Reach (atomic_view s)
    → Atomic.Reach (atomic_view (record s { main = m }))
hidden_main s m same r = rw (← same) r

thread_view :
    {s t : System}
    → ThreadStep s t
    → Inv s
    → Atomic.Reach (atomic_view s)
    → Atomic.Reach (atomic_view t)
thread_view {s} (thread_lock i e free) k r = hidden s s.main i fresh loading e refl refl r
thread_view {s} (thread_load i e) k r = hidden s s.main i loading (storing s.g_val) e refl refl r
thread_view {s} (thread_store i v e) k r =
    rw (k.current i v e, map-set atomic_pc s.pcs i signalling)
      (Atomic.later r (Atomic.fetch_add i (get_elem?-map atomic_pc s.pcs i (storing v) e)))
thread_view {s} (thread_signal i e) k r =
    hidden s (signal s.main) i signalling unlocking e refl (atomic_main-signal s.main) r
thread_view {s} (thread_unlock i e) k r = hidden s s.main i unlocking finished e refl refl r

main_view :
    {s t : System}
    → MainStep s t
    → Inv s
    → Atomic.Reach (atomic_view s)
    → Atomic.Reach (atomic_view t)
main_view {s} (main_lock at free) k r = hidden_main s testing (ap atomic_main at) r
main_view {s} (main_wait at below) k r = hidden_main s sleeping (ap atomic_main at) r
main_view {s} (main_spurious at) k r = hidden_main s woken (ap atomic_main at) r
main_view {s} (main_wake at free) k r = hidden_main s testing (ap atomic_main at) r
main_view {s} (main_leave at enough) k r =
    Atomic.later r (Atomic.load_end (ap atomic_main at) enough)

-- Every reachable state, seen without the mutex and the condition variable and with the count at the
-- store, is one that the atomic variant can reach.
pub cond_refines_atomic : {s : System} → Reach s → Atomic.Reach (atomic_view s)
cond_refines_atomic created = Atomic.created
cond_refines_atomic (by_thread r st) = thread_view st (Reach-Inv r) (cond_refines_atomic r)
cond_refines_atomic (by_main r st) = main_view st (Reach-Inv r) (cond_refines_atomic r)
