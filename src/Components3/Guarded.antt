-- ===== src/Components3/Guarded.antt =====
-- `thread` and `main` of components3_main.c with CONFIG_RAILAB_MINIMAL_COMPONENTS3_MUTEX or with
-- CONFIG_RAILAB_MINIMAL_COMPONENTS3_RWLOCK, as steps in any order. The two differ in the lock, which is
-- NuttX's and a parameter. `g_val++` is a load and a store, between which others can step.
pub mod Locks
pub mod Counts
pub mod Invariant
pub mod Refinement
pub mod Ending
use railab_nuttx_code.Prelude.{ℕ, ◌+◌, ◌<◌, ◌≤◌, ◌≡◌, List, some, get_elem?, set, replicate, u32}
use railab_nuttx_code.Components3.Threads.{threads}
use railab_nuttx_code.Components3.Guarded.Locks.{Guard}

-- Where a counting thread stands.
pub data ThreadPc : Type 0 where
  fresh : ThreadPc  -- before the lock
  loading : ThreadPc  -- before the load of `g_val`
  storing : ℕ → ThreadPc  -- before the store of the loaded value plus 1
  unlocking : ThreadPc  -- before the unlock
  finished : ThreadPc

-- Where `main` stands, once it has created the threads.
pub data MainPc : Type 0 where
  asleep : MainPc  -- before the lock
  reading : MainPc  -- before `tmp = g_val`
  holding : ℕ → MainPc  -- before the unlock, with `tmp`
  ended : MainPc

module _ (g : Guard) where
  pub record System : Type 0 where
    pub g_val : ℕ
    pub lock : g.State
    pub main : MainPc
    pub pcs : List ThreadPc

  -- The system behind the initialisation of the lock and threads_init; every pthread_create is taken
  -- to succeed.
  abbrev pub threads_init : System
  threads_init = record {
    g_val = 0;
    lock = g.initial;
    main = asleep;
    pcs = replicate threads fresh;
  }

  pub data ThreadStep (s : System) : System → Type 0 where
    thread_lock :
        (i : ℕ) (l : g.State)
        → get_elem? s.pcs i ≡ some fresh
        → g.WriteLock s.lock l
        → ThreadStep s (record s { lock = l; pcs = set s.pcs i loading })
    thread_load :
        (i : ℕ)
        → get_elem? s.pcs i ≡ some loading
        → ThreadStep s (record s { pcs = set s.pcs i (storing s.g_val) })
    thread_store :
        (i v : ℕ)
        → get_elem? s.pcs i ≡ some (storing v)
        → ThreadStep s (record s { g_val = u32 (v + 1); pcs = set s.pcs i unlocking })
    thread_unlock :
        (i : ℕ)
        → get_elem? s.pcs i ≡ some unlocking
        → ThreadStep s (record s { lock = g.unlock s.lock; pcs = set s.pcs i finished })

  pub data MainStep (s : System) : System → Type 0 where
    main_lock :
        (l : g.State)
        → s.main ≡ asleep
        → g.ReadLock s.lock l
        → MainStep s (record s { lock = l; main = reading })
    main_read : s.main ≡ reading → MainStep s (record s { main = holding s.g_val })
    main_again :
        (tmp : ℕ)
        → s.main ≡ holding tmp
        → tmp < 3
        → MainStep s (record s { lock = g.unlock s.lock; main = asleep })
    main_end :
        (tmp : ℕ)
        → s.main ≡ holding tmp
        → 3 ≤ tmp
        → MainStep s (record s { lock = g.unlock s.lock; main = ended })

  pub data Reach : System → Type 0 where
    created : Reach threads_init
    by_thread : {s t : System} → Reach s → ThreadStep s t → Reach t
    by_main : {s t : System} → Reach s → MainStep s t → Reach t

  -- The steps from one state to another.
  pub data Run : System → System → Type 0 where
    here : {s : System} → Run s s
    thread_then : {s t u : System} → ThreadStep s t → Run t u → Run s u
    main_then : {s t u : System} → MainStep s t → Run t u → Run s u
