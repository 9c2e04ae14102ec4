-- ===== src/Components3/Atomic/Ends.antt =====
-- What `g_val` counts, and when `main` ends.
use railab_nuttx_code.Prelude.{
  ℕ, ◌*◌, ◌≤◌, ◌≡◌, refl, ap, List, [], ◌∷◌, length, set, length-set, replicate, ◌∙◌, arith,
}
use railab_nuttx_code.Components3.Threads.{threads, total, total-set}
use railab_nuttx_code.Components3.Atomic.{
  ThreadPc, fresh, finished, MainPc, polling, ended, System, Step, fetch_add, load_again, load_end,
  Reach, created, later,
}

abbrev pub counted : ThreadPc → ℕ
counted fresh = 0
counted finished = 1

abbrev main_ended : MainPc → ℕ
main_ended polling = 0
main_ended ended = 1

record Inv (s : System) : Type 0 where
  pub all : length s.pcs ≡ threads
  pub value : s.g_val ≡ total counted s.pcs
  pub end : 3 * main_ended s.main ≤ s.g_val

pub counted_bound : (ps : List ThreadPc) → total counted ps ≤ length ps
counted_bound [] = omega arith
counted_bound (fresh ∷ ps) = omega (arith, counted_bound ps)
counted_bound (finished ∷ ps) = omega (arith, counted_bound ps)

Step-Inv : {s t : System} → Step s t → Inv s → Inv t
Step-Inv {s} (fetch_add i e) k =
    let m = total-set counted s.pcs i fresh finished e in
    let b = counted_bound (set s.pcs i finished) in
    let n = length-set s.pcs i finished in
    record {
      all = omega (arith, k.all, n);
      value = omega (arith, k.value, m, b, n, k.all);
      end = omega (arith, k.value, m, b, n, k.all, k.end);
    }
Step-Inv (load_again at below) k = k
Step-Inv (load_end at enough) k = record {
  all = k.all;
  value = k.value;
  end = omega (arith, enough);
}

Reach-Inv : {s : System} → Reach s → Inv s
Reach-Inv created = record { all = refl; value = refl; end = omega arith }
Reach-Inv (later r st) = Step-Inv st (Reach-Inv r)

-- A list of threads that have all counted.
full_finished :
    (ps : List ThreadPc) → length ps ≤ total counted ps → ps ≡ replicate (length ps) finished
full_finished [] h = refl
full_finished (fresh ∷ ps) h = absurd (omega (arith, counted_bound ps))
full_finished (finished ∷ ps) h = ap (λ l. finished ∷ l) (full_finished ps (omega arith))

-- In every reachable state `g_val` is the number of threads that have counted, and at most 3.
atomic_counts : {s : System} → Reach s → (s.g_val ≡ total counted s.pcs) × (s.g_val ≤ threads)
atomic_counts {s} r =
    let k = Reach-Inv r in (k.value, omega (arith, k.value, k.all, counted_bound s.pcs))

-- In every reachable state in which `main` has ended, `g_val` is 3 and each of the three threads has
-- counted.
pub atomic_ends_after_all :
    {s : System}
    → Reach s
    → s.main ≡ ended
    → (s.g_val ≡ threads) × (s.pcs ≡ replicate threads finished)
atomic_ends_after_all {s} r at =
    let k = Reach-Inv r in
    let d = ap main_ended at in
    let full : threads ≤ total counted s.pcs = omega (arith, k.value, k.end, d) in
    (
      omega (arith, k.value, full, k.all, counted_bound s.pcs),
      full_finished s.pcs (omega (arith, full, k.all)) ∙ ap (λ n. replicate n finished) k.all,
    )
