-- ===== src/Components3/Plain.antt =====
-- `thread` and `main` of components3_main.c with none of the four ways to count
-- (CONFIG_RAILAB_MINIMAL_COMPONENTS3_THREADS alone): the threads only print.
use railab_nuttx_code.Prelude.{ℕ, ◌<◌, ◌≤◌, ◌≡◌, refl, arith, List, some, get_elem?, set, replicate}
use railab_nuttx_code.Components3.Threads.{threads}

pub data ThreadPc : Type 0 where
  fresh : ThreadPc
  finished : ThreadPc

pub data MainPc : Type 0 where
  polling : MainPc
  ended : MainPc

pub record System : Type 0 where
  pub g_val : ℕ
  pub main : MainPc
  pub pcs : List ThreadPc

abbrev pub threads_init : System
threads_init = record { g_val = 0; main = polling; pcs = replicate threads fresh }

pub data Step (s : System) : System → Type 0 where
  hello :
      (i : ℕ) → get_elem? s.pcs i ≡ some fresh → Step s (record s { pcs = set s.pcs i finished })
  look_again : s.main ≡ polling → s.g_val < 3 → Step s s
  look_end : s.main ≡ polling → 3 ≤ s.g_val → Step s (record s { main = ended })

pub data Reach : System → Type 0 where
  created : Reach threads_init
  later : {s t : System} → Reach s → Step s t → Reach t

Step-keeps :
    {s t : System}
    → Step s t
    → (s.g_val ≡ 0) × (s.main ≡ polling)
    → (t.g_val ≡ 0) × (t.main ≡ polling)
Step-keeps (hello i e) k = k
Step-keeps (look_again at below) k = k
Step-keeps (look_end at enough) k = absurd (omega (arith, k.0))

-- With none of the four ways to count the program does not end: in every reachable state `g_val` is 0
-- and `main` is in its loop.
plain_never_ends : {s : System} → Reach s → (s.g_val ≡ 0) × (s.main ≡ polling)
plain_never_ends created = (refl, refl)
plain_never_ends (later r st) = Step-keeps st (plain_never_ends r)
