-- ===== src/Components3/Atomic.antt =====
-- `thread` and `main` of components3_main.c with CONFIG_RAILAB_MINIMAL_COMPONENTS3_ATOMIC, as steps in
-- any order. The variants with locks are shown to do nothing that this one cannot.
pub mod Ends
use railab_nuttx_code.Prelude.{ℕ, ◌+◌, ◌<◌, ◌≤◌, ◌≡◌, List, some, get_elem?, set, replicate, u32}
use railab_nuttx_code.Components3.Threads.{threads}

-- A counting thread before and behind its atomic_fetch_add.
pub data ThreadPc : Type 0 where
  fresh : ThreadPc
  finished : ThreadPc

-- `main` in its loop, and behind it.
pub data MainPc : Type 0 where
  polling : MainPc
  ended : MainPc

pub record System : Type 0 where
  pub g_val : ℕ
  pub main : MainPc
  pub pcs : List ThreadPc

-- The system behind atomic_init and threads_init.
abbrev pub threads_init : System
threads_init = record { g_val = 0; main = polling; pcs = replicate threads fresh }

pub data Step (s : System) : System → Type 0 where
  fetch_add :
      (i : ℕ)
      → get_elem? s.pcs i ≡ some fresh
      → Step s (record s { g_val = u32 (s.g_val + 1); pcs = set s.pcs i finished })
  load_again : s.main ≡ polling → s.g_val < 3 → Step s s
  load_end : s.main ≡ polling → 3 ≤ s.g_val → Step s (record s { main = ended })

pub data Reach : System → Type 0 where
  created : Reach threads_init
  later : {s t : System} → Reach s → Step s t → Reach t
