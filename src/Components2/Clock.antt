-- ===== src/Components2/Clock.antt =====
-- The timers of components2_main.c in time, in milliseconds since they were set, and the loop of `main`
-- with CONFIG_RAILAB_MINIMAL_COMPONENTS2_TIMERFD alone.
use railab_nuttx_code.Prelude.{
  ℕ, ◌+◌, ◌-◌, ◌*◌, ◌/◌, ◌<◌, ◌≡◌, ◌≤◌, refl, ap, List, [], ◌∷◌, ltb, if◌then◌else◌, All, arith,
}

-- struct itimerspec.
pub record ITimerSpec : Type 0 where
  pub it_value : ℕ
  pub it_interval : ℕ

-- The setting of both timers, and the sleep between two rounds.
abbrev pub tms : ITimerSpec
tms = record { it_value = 2000; it_interval = 2000 }

abbrev pub sleep_ms : ℕ
sleep_ms = 1000

-- How often a timer has expired.
abbrev pub expirations : ITimerSpec → (now : ℕ) → ℕ
expirations spec now =
    if ltb now spec.it_value then 0 else 1 + (now - spec.it_value) / spec.it_interval

-- What a read of a timer is: when it returns, the number of expirations that it gives, and how many
-- have been given by then.
pub record TimedRead : Type 0 where
  pub now : ℕ
  pub value : ℕ
  pub seen : ℕ

-- A read of a timer file descriptor as documented: it gives the expirations since the last read, and if
-- there are none it waits for the next.
pub record IsTimerRead (read : ITimerSpec → (now seen : ℕ) → TimedRead) : Type 0 where
  pub expired :
      (spec : ITimerSpec) (now seen : ℕ)
      → seen < expirations spec now
      → read spec now seen
        ≡ record { now = now; value = expirations spec now - seen; seen = expirations spec now }
  pub waits :
      (spec : ITimerSpec) (now seen : ℕ)
      → expirations spec now ≡ seen
      → read spec now seen
        ≡ record { now = spec.it_value + seen * spec.it_interval; value = 1; seen = seen + 1 }

pub record Clock : Type 0 where
  pub now : ℕ
  pub seen1 : ℕ
  pub seen2 : ℕ

-- What the two reads of a round gave, and when the second returned.
pub record Round : Type 0 where
  pub now : ℕ
  pub value1 : ℕ
  pub value2 : ℕ

-- One expiration of each timer in every round, at the end of each period behind `k` periods.
abbrev pub each_once : (k : ℕ) (delays : List ℕ) → List Round
each_once k [] = []
each_once k (delay ∷ delays) =
    record { now = 2000 * (k + 1); value1 = 1; value2 = 1 } ∷ each_once (k + 1) delays

expirations_before : (now k : ℕ) → 2000 * k ≤ now → now < 2000 * (k + 1) → expirations tms now ≡ k
expirations_before now k late early = ground arith

expirations_at : (k : ℕ) → expirations tms (2000 * (k + 1)) ≡ k + 1
expirations_at k = ground arith

module _ (read : ITimerSpec → (now seen : ℕ) → TimedRead) where
  -- The loop, for as many rounds as delays: what a round takes beyond its sleep.
  unfoldable pub timed_loop : (delays : List ℕ) → Clock → List Round
  timed_loop [] c = []
  timed_loop (delay ∷ delays) c =
      let r1 = read tms c.now c.seen1 in
      let r2 = read tms r1.now c.seen2 in
      record { now = r2.now; value1 = r1.value; value2 = r2.value }
      ∷ timed_loop delays
          (record { now = r2.now + sleep_ms + delay; seen1 = r1.seen; seen2 = r2.seen })

  module _ (timer : IsTimerRead read) where
    -- A read before the end of a period waits for it; a read at its end does not.
    read_early :
        (now k : ℕ)
        → 2000 * k ≤ now
        → now < 2000 * (k + 1)
        → read tms now k ≡ record { now = 2000 * (k + 1); value = 1; seen = k + 1 }
    read_early now k late early =
        let at : 2000 + k * 2000 ≡ 2000 * (k + 1) = omega arith in
        rw at at (timer.waits tms now k (expirations_before now k late early))

    read_on_time :
        (k : ℕ)
        → read tms (2000 * (k + 1)) k ≡ record { now = 2000 * (k + 1); value = 1; seen = k + 1 }
    read_on_time k =
        let one : k + 1 - k ≡ 1 = omega arith in
        let e = expirations_at k in
        rw (e, one) at (timer.expired tms (2000 * (k + 1)) k (omega (arith, e)))

    loop_once :
        (delays : List ℕ) (k now : ℕ)
        → All (λ delay. delay < 1000) delays
        → 2000 * k ≤ now
        → now < 2000 * (k + 1)
        → timed_loop delays (record { now = now; seen1 = k; seen2 = k }) ≡ each_once k delays
    unfolding timed_loop
    loop_once [] k now fast late early = refl
    loop_once (delay ∷ delays) k now fast late early =
        rw (read_early now k late early, read_on_time k)
          (ap (λ l. record { now = 2000 * (k + 1); value1 = 1; value2 = 1 } ∷ l)
            (loop_once delays (k + 1) (2000 * (k + 1) + sleep_ms + delay) fast.1 (omega arith)
              (omega (arith, fast.0))))

    -- With timers as documented, if no round takes a second or more beyond its sleep and the loop is
    -- entered within two seconds, `main` misses no expiration and reads none twice: in every round both
    -- reads give exactly one, at the end of a period of two seconds.
    pub busy_reads_once :
        (delays : List ℕ) (now : ℕ)
        → All (λ delay. delay < 1000) delays
        → now < 2000
        → timed_loop delays (record { now = now; seen1 = 0; seen2 = 0 }) ≡ each_once 0 delays
    busy_reads_once delays now fast early = loop_once delays 0 now fast (omega arith) (omega arith)
