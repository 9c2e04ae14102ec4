-- ===== src/Components3/Cond.antt =====
-- `thread` and `main` of components3_main.c with CONFIG_RAILAB_MINIMAL_COMPONENTS3_COND, as steps in
-- any order. `g_val++` is a load and a store, between which others can step. A wait on the condition variable may also end without a signal.
pub mod Counts
pub mod Invariant
pub mod Wakeup
pub mod Ending
pub mod Refinement
use railab_nuttx_code.Prelude.{
  ℕ, ◌+◌, ◌<◌, ◌≤◌, ◌≡◌, Bool, true, false, List, Option, some, get_elem?, set, replicate, u32,
}
use railab_nuttx_code.Components3.Threads.{threads}

-- Where a counting thread stands.
pub data ThreadPc : Type 0 where
  fresh : ThreadPc  -- before pthread_mutex_lock
  loading : ThreadPc  -- before the load of `g_val`
  storing : ℕ → ThreadPc  -- before the store of the loaded value plus 1
  signalling : ThreadPc  -- before pthread_cond_signal
  unlocking : ThreadPc  -- before pthread_mutex_unlock
  finished : ThreadPc

-- Where `main` stands, once it has created the threads.
pub data MainPc : Type 0 where
  entering : MainPc  -- before pthread_mutex_lock
  testing : MainPc  -- before the test of the loop, with the mutex
  sleeping : MainPc  -- in pthread_cond_wait
  woken : MainPc  -- in pthread_cond_wait, to take the mutex again
  ended : MainPc  -- behind pthread_mutex_unlock

pub record System : Type 0 where
  pub g_val : ℕ
  pub g_mut : Bool
  pub main : MainPc
  pub pcs : List ThreadPc

-- The system behind threads_init; every pthread_create is taken to succeed.
abbrev pub threads_init : System
threads_init = record { g_val = 0; g_mut = false; main = entering; pcs = replicate threads fresh }

-- pthread_cond_signal: `main` is the only thread that waits.
abbrev pub signal : MainPc → MainPc
signal entering = entering
signal testing = testing
signal sleeping = woken
signal woken = woken
signal ended = ended

-- A step of the counting thread `i`.
pub data ThreadStep (s : System) : System → Type 0 where
  thread_lock :
      (i : ℕ)
      → get_elem? s.pcs i ≡ some fresh
      → s.g_mut ≡ false
      → ThreadStep s (record s { g_mut = true; pcs = set s.pcs i loading })
  thread_load :
      (i : ℕ)
      → get_elem? s.pcs i ≡ some loading
      → ThreadStep s (record s { pcs = set s.pcs i (storing s.g_val) })
  thread_store :
      (i v : ℕ)
      → get_elem? s.pcs i ≡ some (storing v)
      → ThreadStep s (record s { g_val = u32 (v + 1); pcs = set s.pcs i signalling })
  thread_signal :
      (i : ℕ)
      → get_elem? s.pcs i ≡ some signalling
      → ThreadStep s (record s { main = signal s.main; pcs = set s.pcs i unlocking })
  thread_unlock :
      (i : ℕ)
      → get_elem? s.pcs i ≡ some unlocking
      → ThreadStep s (record s { g_mut = false; pcs = set s.pcs i finished })

-- A step of `main`.
pub data MainStep (s : System) : System → Type 0 where
  main_lock :
      s.main ≡ entering → s.g_mut ≡ false → MainStep s (record s { g_mut = true; main = testing })
  main_wait :
      s.main ≡ testing → s.g_val < 3 → MainStep s (record s { g_mut = false; main = sleeping })
  main_spurious : s.main ≡ sleeping → MainStep s (record s { main = woken })
  main_wake :
      s.main ≡ woken → s.g_mut ≡ false → MainStep s (record s { g_mut = true; main = testing })
  main_leave :
      s.main ≡ testing → 3 ≤ s.g_val → MainStep s (record s { g_mut = false; main = ended })

pub data Reach : System → Type 0 where
  created : Reach threads_init
  by_thread : {s t : System} → Reach s → ThreadStep s t → Reach t
  by_main : {s t : System} → Reach s → MainStep s t → Reach t
