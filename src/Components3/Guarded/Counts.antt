-- ===== src/Components3/Guarded/Counts.antt =====
-- How many of the threads around a lock are where, and how a step of one of them changes that.
use railab_nuttx_code.Prelude.{
  ℕ, ◌+◌, ◌≤◌, ◌≡◌, ap, List, [], ◌∷◌, some, length, get_elem?, set, length-set, arith, inl, inr,
}
use railab_nuttx_code.Components3.Threads.{total, total-set, total_mono, get_elem?-set}
use railab_nuttx_code.Components3.Guarded.{
  ThreadPc, fresh, loading, storing, unlocking, finished, MainPc, asleep, reading, holding, ended,
}

-- 1 for a thread that has counted, that is in for writing, that holds a loaded value.
abbrev pub counted : ThreadPc → ℕ
counted fresh = 0
counted loading = 0
counted (storing v) = 0
counted unlocking = 1
counted finished = 1

abbrev pub writing : ThreadPc → ℕ
writing fresh = 0
writing loading = 1
writing (storing v) = 1
writing unlocking = 1
writing finished = 0

abbrev pub stored : ThreadPc → ℕ
stored fresh = 0
stored loading = 0
stored (storing v) = 1
stored unlocking = 0
stored finished = 0

stored-le-writing : (p : ThreadPc) → stored p ≤ writing p
stored-le-writing fresh = omega arith
stored-le-writing loading = omega arith
stored-le-writing (storing v) = omega arith
stored-le-writing unlocking = omega arith
stored-le-writing finished = omega arith

-- 1 for a `main` that is in for reading; the value that `main` goes by.
abbrev pub main_reads : MainPc → ℕ
main_reads asleep = 0
main_reads reading = 1
main_reads (holding tmp) = 1
main_reads ended = 0

abbrev pub main_seen : MainPc → ℕ
main_seen asleep = 0
main_seen reading = 0
main_seen (holding tmp) = tmp
main_seen ended = 3

pub counted_bound : (ps : List ThreadPc) → total counted ps ≤ length ps
counted_bound [] = omega arith
counted_bound (fresh ∷ ps) = omega (arith, counted_bound ps)
counted_bound (loading ∷ ps) = omega (arith, counted_bound ps)
counted_bound (storing v ∷ ps) = omega (arith, counted_bound ps)
counted_bound (unlocking ∷ ps) = omega (arith, counted_bound ps)
counted_bound (finished ∷ ps) = omega (arith, counted_bound ps)

-- A thread's move from `p` to `q`: all the sums at once.
pub moved :
    (ps : List ThreadPc) (i : ℕ) (p q : ThreadPc)
    → get_elem? ps i ≡ some p
    → (length (set ps i q) ≡ length ps)
      × (total counted (set ps i q) + counted p ≡ total counted ps + counted q)
      × (total writing (set ps i q) + writing p ≡ total writing ps + writing q)
      × (total stored (set ps i q) + stored p ≡ total stored ps + stored q)
      × (total stored ps ≤ total writing ps)
moved ps i p q e = (
  length-set ps i q,
  total-set counted ps i p q e,
  total-set writing ps i p q e,
  total-set stored ps i p q e,
  total_mono stored writing stored-le-writing ps,
)

-- A loaded value that was there before the move.
pub old_value :
    (ps : List ThreadPc) (i j v : ℕ) (q : ThreadPc)
    → stored q ≡ 0
    → get_elem? (set ps i q) j ≡ some (storing v)
    → get_elem? ps j ≡ some (storing v)
old_value ps i j v q none e =
    let c = get_elem?-set ps i j (storing v) q e in
    elim c [ inl same ↦ absurd (omega (arith, ap stored same)) | inr old ↦ old ]
