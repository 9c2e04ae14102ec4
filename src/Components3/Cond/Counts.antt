-- ===== src/Components3/Cond/Counts.antt =====
-- How many of the counting threads are where, and how a step of one of them and a signal change that.
use railab_nuttx_code.Prelude.{
  ℕ, ◌≤◌, ◌≡◌, refl, ap, Bool, true, false, List, [], ◌∷◌, some, length, get_elem?, set, length-set,
  ◌+◌, inl, inr, arith,
}
use railab_nuttx_code.Components3.Threads.{total, total-set, total_mono, get_elem?-set}
use railab_nuttx_code.Components3.Cond.{
  ThreadPc, fresh, loading, storing, signalling, unlocking, finished, MainPc, entering, testing,
  sleeping, woken, ended, signal,
}

-- 1 for a thread that has counted, that holds the mutex, that has not signalled.
abbrev pub counted : ThreadPc → ℕ
counted fresh = 0
counted loading = 0
counted (storing v) = 0
counted signalling = 1
counted unlocking = 1
counted finished = 1

abbrev pub holds : ThreadPc → ℕ
holds fresh = 0
holds loading = 1
holds (storing v) = 1
holds signalling = 1
holds unlocking = 1
holds finished = 0

abbrev pub pending : ThreadPc → ℕ
pending fresh = 1
pending loading = 1
pending (storing v) = 1
pending signalling = 1
pending unlocking = 0
pending finished = 0

-- 1 for a thread that holds a loaded value.
abbrev pub stored : ThreadPc → ℕ
stored fresh = 0
stored loading = 0
stored (storing v) = 1
stored signalling = 0
stored unlocking = 0
stored finished = 0

stored-le-holds : (p : ThreadPc) → stored p ≤ holds p
stored-le-holds fresh = omega arith
stored-le-holds loading = omega arith
stored-le-holds (storing v) = omega arith
stored-le-holds signalling = omega arith
stored-le-holds unlocking = omega arith
stored-le-holds finished = omega arith

-- 1 for a `main` that holds the mutex, that sleeps, that has ended.
abbrev pub main_holds : MainPc → ℕ
main_holds entering = 0
main_holds testing = 1
main_holds sleeping = 0
main_holds woken = 0
main_holds ended = 0

abbrev pub main_sleeps : MainPc → ℕ
main_sleeps entering = 0
main_sleeps testing = 0
main_sleeps sleeping = 1
main_sleeps woken = 0
main_sleeps ended = 0

abbrev pub main_ended : MainPc → ℕ
main_ended entering = 0
main_ended testing = 0
main_ended sleeping = 0
main_ended woken = 0
main_ended ended = 1

abbrev pub held : Bool → ℕ
held true = 1
held false = 0

-- Every thread has counted or has still to signal, and has counted at most once.
pub counted_or_pending : (ps : List ThreadPc) → length ps ≤ total counted ps + total pending ps
counted_or_pending [] = omega arith
counted_or_pending (fresh ∷ ps) = omega (arith, counted_or_pending ps)
counted_or_pending (loading ∷ ps) = omega (arith, counted_or_pending ps)
counted_or_pending (storing v ∷ ps) = omega (arith, counted_or_pending ps)
counted_or_pending (signalling ∷ ps) = omega (arith, counted_or_pending ps)
counted_or_pending (unlocking ∷ ps) = omega (arith, counted_or_pending ps)
counted_or_pending (finished ∷ ps) = omega (arith, counted_or_pending ps)

pub counted_bound : (ps : List ThreadPc) → total counted ps ≤ length ps
counted_bound [] = omega arith
counted_bound (fresh ∷ ps) = omega (arith, counted_bound ps)
counted_bound (loading ∷ ps) = omega (arith, counted_bound ps)
counted_bound (storing v ∷ ps) = omega (arith, counted_bound ps)
counted_bound (signalling ∷ ps) = omega (arith, counted_bound ps)
counted_bound (unlocking ∷ ps) = omega (arith, counted_bound ps)
counted_bound (finished ∷ ps) = omega (arith, counted_bound ps)

pub signal_effect :
    (m : MainPc)
    → (main_holds (signal m) ≡ main_holds m)
      × (main_sleeps (signal m) ≡ 0)
      × (main_ended (signal m) ≡ main_ended m)
signal_effect entering = (refl, refl, refl)
signal_effect testing = (refl, refl, refl)
signal_effect sleeping = (refl, refl, refl)
signal_effect woken = (refl, refl, refl)
signal_effect ended = (refl, refl, refl)

-- A thread's move from `p` to `q`: all the sums at once.
pub moved :
    (ps : List ThreadPc) (i : ℕ) (p q : ThreadPc)
    → get_elem? ps i ≡ some p
    → (length (set ps i q) ≡ length ps)
      × (total counted (set ps i q) + counted p ≡ total counted ps + counted q)
      × (total holds (set ps i q) + holds p ≡ total holds ps + holds q)
      × (total pending (set ps i q) + pending p ≡ total pending ps + pending q)
      × (total stored (set ps i q) + stored p ≡ total stored ps + stored q)
      × (total stored ps ≤ total holds ps)
moved ps i p q e = (
  length-set ps i q,
  total-set counted ps i p q e,
  total-set holds ps i p q e,
  total-set pending ps i p q e,
  total-set stored ps i p q e,
  total_mono stored holds stored-le-holds ps,
)

-- A loaded value that was there before the move.
pub old_value :
    (ps : List ThreadPc) (i j v : ℕ) (q : ThreadPc)
    → stored q ≡ 0
    → get_elem? (set ps i q) j ≡ some (storing v)
    → get_elem? ps j ≡ some (storing v)
old_value ps i j v q none e =
    let c = get_elem?-set ps i j (storing v) q e in
    elim c [ inl same ↦ absurd (omega (arith, ap stored same)) | inr old ↦ old ]

pub held_bound : (b : Bool) → held b ≤ 1
held_bound true = omega arith
held_bound false = omega arith
