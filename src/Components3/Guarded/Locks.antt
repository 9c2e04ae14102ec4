-- ===== src/Components3/Guarded/Locks.antt =====
-- What the threads rely on in a lock of NuttX: who may be in at once, and that a free lock can be taken.
-- A mutex and a read-write lock are two such locks.
use railab_nuttx_code.Prelude.{
  ℕ, suc, ◌+◌, ◌-◌, ◌≤◌, ◌≡◌, refl, ap, Bool, true, false, if◌then◌else◌, arith,
}

-- `Counts l w r`: in the state `l` of the lock, `w` threads are in for writing and `r` for reading.
pub record Guard : Type 1 where
  pub State : Type 0
  pub initial : State
  pub WriteLock : State → State → Type 0
  pub ReadLock : State → State → Type 0
  pub unlock : State → State
  pub Counts : State → ℕ → ℕ → Type 0
  pub initially : Counts initial 0 0
  pub write_locks :
      (l m : State) (w r : ℕ) → Counts l w r → WriteLock l m → (w ≡ 0) × (r ≡ 0) × Counts m 1 0
  pub read_locks :
      (l m : State) (w r : ℕ) → Counts l w r → ReadLock l m → (w ≡ 0) × Counts m 0 (suc r)
  pub write_unlocks : (l : State) → Counts l 1 0 → Counts (unlock l) 0 0
  pub read_unlocks : (l : State) (r : ℕ) → Counts l 0 (suc r) → Counts (unlock l) 0 r
  pub write_free : (l : State) → Counts l 0 0 → (m : State) × WriteLock l m
  pub read_free : (l : State) → Counts l 0 0 → (m : State) × ReadLock l m

abbrev pub held : Bool → ℕ
held true = 1
held false = 0

pub held_bound : (b : Bool) → held b ≤ 1
held_bound true = omega arith
held_bound false = omega arith

pub held_zero : (b : Bool) → held b ≡ 0 → b ≡ false
held_zero true h = absurd (omega arith)
held_zero false h = refl

-- A mutex: whoever locks it is in alone.
abbrev pub mutex : Guard
mutex = record {
  State = Bool;
  initial = false;
  WriteLock = λ l m. (l ≡ false) × (m ≡ true);
  ReadLock = λ l m. (l ≡ false) × (m ≡ true);
  unlock = λ l. false;
  Counts = λ l w r. held l ≡ w + r;
  initially = refl;
  write_locks = λ l m w r k e.
      let off = ap held e.0 in (omega (arith, k, off), omega (arith, k, off), ap held e.1);
  read_locks = λ l m w r k e.
      let off = ap held e.0 in
      let on = ap held e.1 in (omega (arith, k, off), omega (arith, k, off, on));
  write_unlocks = λ l k. refl;
  read_unlocks = λ l r k. omega (arith, held_bound l);
  write_free = λ l k. (true, (held_zero l k, refl));
  read_free = λ l k. (true, (held_zero l k, refl));
}

-- A read-write lock: one writer, or any number of readers.
pub record Rwlock : Type 0 where
  pub writer : Bool
  pub readers : ℕ

abbrev pub rw_unlock : Rwlock → Rwlock
rw_unlock l = if l.writer then record l { writer = false } else record l { readers = l.readers - 1 }

abbrev pub RwCounts : Rwlock → ℕ → ℕ → Type 0
RwCounts l w r = (held l.writer ≡ w) × (l.readers ≡ r)

pub rw_unlock_write : (l : Rwlock) → RwCounts l 1 0 → RwCounts (rw_unlock l) 0 0
rw_unlock_write l k = ground arith

pub rw_unlock_read : (l : Rwlock) (r : ℕ) → RwCounts l 0 (suc r) → RwCounts (rw_unlock l) 0 r
rw_unlock_read l r k = ground arith

abbrev pub rwlock : Guard
rwlock = record {
  State = Rwlock;
  initial = record { writer = false; readers = 0 };
  WriteLock =
      λ l m. (l.writer ≡ false) × (l.readers ≡ 0) × (m ≡ record { writer = true; readers = 0 });
  ReadLock = λ l m. (l.writer ≡ false) × (m ≡ record { writer = false; readers = suc l.readers });
  unlock = rw_unlock;
  Counts = RwCounts;
  initially = (refl, refl);
  write_locks = λ l m w r k e.
      let off = ap held e.0 in
      (
        omega (arith, k, off),
        omega (arith, k, e.1),
        (ap (λ (x : Rwlock). held x.writer) e.2, ap (λ (x : Rwlock). x.readers) e.2),
      );
  read_locks = λ l m w r k e.
      let off = ap held e.0 in
      let n = ap (λ (x : Rwlock). x.readers) e.1 in
      (omega (arith, k, off), (ap (λ (x : Rwlock). held x.writer) e.1, omega (arith, k, n)));
  write_unlocks = rw_unlock_write;
  read_unlocks = rw_unlock_read;
  write_free = λ l k. (record { writer = true; readers = 0 }, (held_zero l.writer k.0, k.1, refl));
  read_free =
      λ l k. (record { writer = false; readers = suc l.readers }, (held_zero l.writer k.0, refl));
}
