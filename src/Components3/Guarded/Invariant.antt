-- ===== src/Components3/Guarded/Invariant.antt =====
-- The invariant of the threads around a lock: who is in, and that a loaded value is not out of date.
use railab_nuttx_code.Prelude.{
  ℕ, suc, ◌+◌, ◌≤◌, ◌≡◌, refl, ap, some, length, get_elem?, set, u32, arith, inl, inr, replicate,
}
use railab_nuttx_code.Components3.Threads.{threads, total, total_bound, get_elem?-set}
use railab_nuttx_code.Components3.Guarded.Locks.{Guard}
use railab_nuttx_code.Components3.Guarded.{
  fresh, loading, storing, unlocking, finished, System, ThreadStep, thread_lock, thread_load,
  thread_store, thread_unlock, MainStep, main_lock, main_read, main_again, main_end, Reach, created,
  by_thread, by_main,
}
use railab_nuttx_code.Components3.Guarded.Counts.{
  counted, writing, stored, main_reads, main_seen, counted_bound, moved, old_value,
}

module _ (g : Guard) where
  pub record Inv (s : System g) : Type 0 where
    pub all : length s.pcs ≡ threads
    pub value : s.g_val ≡ total counted s.pcs
    pub inside : g.Counts s.lock (total writing s.pcs) (main_reads s.main)
    pub alone : total writing s.pcs + main_reads s.main ≤ 1
    pub current : (j v : ℕ) → get_elem? s.pcs j ≡ some (storing v) → v ≡ s.g_val
    pub seen : main_seen s.main ≤ s.g_val

  pub ThreadStep-Inv : {s t : System g} → ThreadStep g s t → Inv s → Inv t
  ThreadStep-Inv {s} (thread_lock i l e lock) k =
      let m = moved s.pcs i fresh loading e in
      let (w, r, k') = g.write_locks s.lock l _ _ k.inside lock in
      let one : total writing (set s.pcs i loading) ≡ 1 = omega (arith, m, w) in
      record {
        all = omega (arith, m, k.all);
        value = omega (arith, m, k.value);
        inside = rw (one, r) k';
        alone = omega (arith, one, r);
        current = λ j v e'. k.current j v (old_value s.pcs i j v loading refl e');
        seen = k.seen;
      }
  ThreadStep-Inv {s} (thread_load i e) k =
      let m = moved s.pcs i loading (storing s.g_val) e in
      let same : total writing (set s.pcs i (storing s.g_val)) ≡ total writing s.pcs =
        omega (arith, m) in
      record {
        all = omega (arith, m, k.all);
        value = omega (arith, m, k.value);
        inside = rw same k.inside;
        alone = omega (arith, same, k.alone);
        current = λ j v e'.
            let c = get_elem?-set s.pcs i j (storing v) (storing s.g_val) e' in
            elim c [ inl new ↦ cc | inr old ↦ k.current j v old ];
        seen = k.seen;
      }
  ThreadStep-Inv {s} (thread_store i v e) k =
      let m = moved s.pcs i (storing v) unlocking e in
      let same : total writing (set s.pcs i unlocking) ≡ total writing s.pcs = omega (arith, m) in
      let b = counted_bound (set s.pcs i unlocking) in
      let up : u32 (v + 1) ≡ suc s.g_val = omega (arith, k.current i v e, b, m, k.all, k.value) in
      record {
        all = omega (arith, m, k.all);
        value = omega (arith, m, k.value, up);
        inside = rw same k.inside;
        alone = omega (arith, same, k.alone);
        current = λ j w e'.
            absurd (omega (arith, m, k.alone, total_bound stored (set s.pcs i unlocking) j _ e'));
        seen = omega (arith, k.seen, up);
      }
  ThreadStep-Inv {s} (thread_unlock i e) k =
      let m = moved s.pcs i unlocking finished e in
      let one : total writing s.pcs ≡ 1 = omega (arith, m, k.alone) in
      let none : total writing (set s.pcs i finished) ≡ 0 = omega (arith, m, one) in
      let apart : main_reads s.main ≡ 0 = omega (arith, one, k.alone) in
      record {
        all = omega (arith, m, k.all);
        value = omega (arith, m, k.value);
        inside = rw (none, apart) (g.write_unlocks s.lock (rw (one, apart) at k.inside));
        alone = omega (arith, none, apart);
        current = λ j v e'. k.current j v (old_value s.pcs i j v finished refl e');
        seen = k.seen;
      }

  -- What is left when `main` unlocks.
  leaving :
      (s : System g)
      → Inv s
      → main_reads s.main ≡ 1
      → g.Counts (g.unlock s.lock) (total writing s.pcs) 0 × (total writing s.pcs ≡ 0)
  leaving s k in_it =
      let none : total writing s.pcs ≡ 0 = omega (arith, in_it, k.alone) in
      (rw none (g.read_unlocks s.lock 0 (rw (none, in_it) at k.inside)), none)

  pub MainStep-Inv : {s t : System g} → MainStep g s t → Inv s → Inv t
  MainStep-Inv {s} (main_lock l at lock) k =
      let (w, k') = g.read_locks s.lock l _ _ k.inside lock in
      let out : main_reads s.main ≡ 0 = ap main_reads at in
      record {
        all = k.all;
        value = k.value;
        inside = rw w (rw out at k');
        alone = omega (arith, w);
        current = k.current;
        seen = omega arith;
      }
  MainStep-Inv {s} (main_read at) k =
      let in_it = ap main_reads at in
      record {
        all = k.all;
        value = k.value;
        inside = rw in_it at k.inside;
        alone = omega (arith, in_it, k.alone);
        current = k.current;
        seen = omega arith;
      }
  MainStep-Inv {s} (main_again tmp at below) k =
      let out = leaving s k (ap main_reads at) in
      record {
        all = k.all;
        value = k.value;
        inside = out.0;
        alone = omega (arith, out.1);
        current = k.current;
        seen = omega arith;
      }
  MainStep-Inv {s} (main_end tmp at enough) k =
      let out = leaving s k (ap main_reads at) in
      record {
        all = k.all;
        value = k.value;
        inside = out.0;
        alone = omega (arith, out.1);
        current = k.current;
        seen = omega (arith, k.seen, ap main_seen at);
      }

  pub Reach-Inv : {s : System g} → Reach g s → Inv s
  Reach-Inv created = record {
    all = refl;
    value = refl;
    inside = g.initially;
    alone = omega arith;
    current = λ j v e.
        absurd (omega (arith, total_bound stored (replicate threads fresh) j (storing v) e));
    seen = omega arith;
  }
  Reach-Inv (by_thread r st) = ThreadStep-Inv st (Reach-Inv r)
  Reach-Inv (by_main r st) = MainStep-Inv st (Reach-Inv r)
