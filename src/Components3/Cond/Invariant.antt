-- ===== src/Components3/Cond/Invariant.antt =====
-- The invariant of the counting threads: `g_val` is how many have counted, the mutex has at most
-- one holder, and while `main` sleeps there is a thread that has not signalled.
use railab_nuttx_code.Prelude.{
  ℕ, suc, ◌*◌, ◌≤◌, ◌≡◌, refl, ap, some, length, get_elem?, set, replicate, u32, ◌+◌, inl, inr,
  arith,
}
use railab_nuttx_code.Components3.Threads.{threads, total, total_bound, get_elem?-set}
use railab_nuttx_code.Components3.Cond.{
  fresh, loading, storing, signalling, unlocking, finished, System, ThreadStep, thread_lock,
  thread_load, thread_store, thread_signal, thread_unlock, MainStep, main_lock, main_wait,
  main_spurious, main_wake, main_leave, Reach, created, by_thread, by_main,
}
use railab_nuttx_code.Components3.Cond.Counts.{
  counted, holds, pending, stored, main_holds, main_sleeps, main_ended, held, counted_or_pending,
  counted_bound, signal_effect, moved, old_value, held_bound,
}

pub record Inv (s : System) : Type 0 where
  pub all : length s.pcs ≡ threads
  pub value : s.g_val ≡ total counted s.pcs
  pub mutex : held s.g_mut ≡ total holds s.pcs + main_holds s.main
  pub wakeup : main_sleeps s.main ≤ total pending s.pcs
  pub current : (j v : ℕ) → get_elem? s.pcs j ≡ some (storing v) → v ≡ s.g_val
  pub end : 3 * main_ended s.main ≤ s.g_val

ThreadStep-Inv : {s t : System} → ThreadStep s t → Inv s → Inv t
ThreadStep-Inv {s} (thread_lock i e free) k =
    let m = moved s.pcs i fresh loading e in
    let f = ap held free in
    record {
      all = omega (arith, m, k.all);
      value = omega (arith, m, k.value);
      mutex = omega (arith, m, k.mutex, f);
      wakeup = omega (arith, m, k.wakeup);
      current = λ j v e'. k.current j v (old_value s.pcs i j v loading refl e');
      end = k.end;
    }
ThreadStep-Inv {s} (thread_load i e) k =
    let m = moved s.pcs i loading (storing s.g_val) e in
    record {
      all = omega (arith, m, k.all);
      value = omega (arith, m, k.value);
      mutex = omega (arith, m, k.mutex);
      wakeup = omega (arith, m, k.wakeup);
      current = λ j v e'.
          let c = get_elem?-set s.pcs i j (storing v) (storing s.g_val) e' in
          elim c [ inl new ↦ cc | inr old ↦ k.current j v old ];
      end = k.end;
    }
ThreadStep-Inv {s} (thread_store i v e) k =
    let m = moved s.pcs i (storing v) signalling e in
    let b = counted_bound (set s.pcs i signalling) in
    let one = held_bound s.g_mut in
    let up : u32 (v + 1) ≡ suc s.g_val = omega (arith, k.current i v e, b, m, k.all, k.value) in
    record {
      all = omega (arith, m, k.all);
      value = omega (arith, m, k.value, up);
      mutex = omega (arith, m, k.mutex);
      wakeup = omega (arith, m, k.wakeup);
      current = λ j w e'.
          absurd
            (omega (arith, m, k.mutex, one, total_bound stored (set s.pcs i signalling) j _ e'));
      end = omega (arith, k.end, up);
    }
ThreadStep-Inv {s} (thread_signal i e) k =
    let m = moved s.pcs i signalling unlocking e in
    let (h, w, d) = signal_effect s.main in
    record {
      all = omega (arith, m, k.all);
      value = omega (arith, m, k.value);
      mutex = omega (arith, m, k.mutex, h);
      wakeup = omega (arith, w);
      current = λ j v e'. k.current j v (old_value s.pcs i j v unlocking refl e');
      end = omega (arith, k.end, d);
    }
ThreadStep-Inv {s} (thread_unlock i e) k =
    let m = moved s.pcs i unlocking finished e in
    let one = held_bound s.g_mut in
    record {
      all = omega (arith, m, k.all);
      value = omega (arith, m, k.value);
      mutex = omega (arith, m, k.mutex, one);
      wakeup = omega (arith, m, k.wakeup);
      current = λ j v e'. k.current j v (old_value s.pcs i j v finished refl e');
      end = k.end;
    }

MainStep-Inv : {s t : System} → MainStep s t → Inv s → Inv t
MainStep-Inv {s} (main_lock at free) k =
    let h = ap main_holds at in
    let d = ap main_ended at in
    record {
      all = k.all;
      value = k.value;
      mutex = omega (arith, k.mutex, h, ap held free);
      wakeup = omega arith;
      current = k.current;
      end = omega arith;
    }
MainStep-Inv {s} (main_wait at below) k =
    let h = ap main_holds at in
    let one = held_bound s.g_mut in
    let some_left = counted_or_pending s.pcs in
    record {
      all = k.all;
      value = k.value;
      mutex = omega (arith, k.mutex, h, one);
      wakeup = omega (arith, k.value, k.all, some_left);
      current = k.current;
      end = omega arith;
    }
MainStep-Inv {s} (main_spurious at) k = record {
  all = k.all;
  value = k.value;
  mutex = omega (arith, k.mutex, ap main_holds at);
  wakeup = omega arith;
  current = k.current;
  end = omega arith;
}
MainStep-Inv {s} (main_wake at free) k = record {
  all = k.all;
  value = k.value;
  mutex = omega (arith, k.mutex, ap main_holds at, ap held free);
  wakeup = omega arith;
  current = k.current;
  end = omega arith;
}
MainStep-Inv {s} (main_leave at enough) k =
    let one = held_bound s.g_mut in
    record {
      all = k.all;
      value = k.value;
      mutex = omega (arith, k.mutex, ap main_holds at, one);
      wakeup = omega arith;
      current = k.current;
      end = omega (arith, enough);
    }

pub Reach-Inv : {s : System} → Reach s → Inv s
Reach-Inv created = record {
  all = refl;
  value = refl;
  mutex = refl;
  wakeup = omega arith;
  current =
      λ j v e. absurd (omega (arith, total_bound stored (replicate threads fresh) j (storing v) e));
  end = omega arith;
}
Reach-Inv (by_thread r st) = ThreadStep-Inv st (Reach-Inv r)
Reach-Inv (by_main r st) = MainStep-Inv st (Reach-Inv r)
