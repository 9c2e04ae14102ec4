-- ===== src/Components2/Polled.antt =====
-- The rounds with poll: they read just the timers that have expired.
use railab_nuttx_code.Prelude.{
  ℕ, ◌≡◌, ◌≢◌, refl, Bool, true, false, List, [], ◌∷◌, ◌++◌, pos, ltb_ℤ, if◌then◌else◌, ◌==◌,
  ==_iff, ◌&&◌, arith, Bool-cases, inl, inr, All, All-append,
}
use railab_nuttx_code.Components2.{
  Timers, Read, PollAnswer, fds1, fds2, poll_round, poll_loop, timer_read, expire,
}

module _ (pollin tfd1 tfd2 : ℕ) where
  -- What `poll` promises: if it does not fail it sets the events that are asked for, of the timers
  -- that have expired and of no others; if it fails it sets nothing.
  pub record Answers (timers : Timers) (a : PollAnswer pollin tfd1 tfd2) : Type 0 where
    pub revents1 : a.revents1 ≡ (
        if ltb_ℤ (pos 0) a.ret && timers (fds1 pollin tfd1 tfd2).fd
        then (fds1 pollin tfd1 tfd2).events
        else 0)
    pub revents2 : a.revents2 ≡ (
        if ltb_ℤ (pos 0) a.ret && timers (fds2 pollin tfd1 tfd2).fd
        then (fds2 pollin tfd1 tfd2).events
        else 0)

  -- The reads of the timers that have expired, none of which waits.
  abbrev pub expired_reads : Timers → List Read
  expired_reads timers =
      (if timers tfd1 then record { fd = tfd1; waited = false } ∷ [] else [])
      ++ (if timers tfd2 then record { fd = tfd2; waited = false } ∷ [] else [])

  -- The test of `revents` tells which timer has expired.
  test_expired :
      (expired : Bool) (revents : ℕ)
      → pollin ≢ 0
      → revents ≡ (if expired then pollin else 0)
      → (revents == pollin) ≡ expired
  test_expired true revents nz e = (==_iff revents pollin).1 e
  test_expired false revents nz e = ground arith

  other_timer : tfd1 ≢ tfd2 → (tfd2 == tfd1) ≡ false
  other_timer ne = ground arith

  -- With poll, two different timers and a POLLIN that is not 0: a round reads just the timers that
  -- have expired, in their order, and no read waits; if `poll` fails it reads nothing.
  pub poll_reads_expired :
      (timers : Timers) (a : PollAnswer pollin tfd1 tfd2)
      → pollin ≢ 0
      → tfd1 ≢ tfd2
      → Answers timers a
      → (poll_round pollin tfd1 tfd2 a timers).log
        ≡ (if ltb_ℤ (pos 0) a.ret then expired_reads timers else [])
  unfolding poll_round timer_read
  poll_reads_expired timers a nz ne k = elim (Bool-cases (ltb_ℤ (pos 0) a.ret)) [
    | inr failed ↦ rw failed
    | inl ok ↦
        let t1 = test_expired (timers tfd1) a.revents1 nz (rw ok at k.revents1) in
        let t2 = test_expired (timers tfd2) a.revents2 nz (rw ok at k.revents2) in
        elim (Bool-cases (timers tfd1)) [
          | inl e1 ↦ elim (Bool-cases (timers tfd2)) [
            | inl e2 ↦ rw (ok, t1, t2, e1, e2, other_timer ne)
            | inr e2 ↦ rw (ok, t1, t2, e1, e2)
          ]
          | inr e1 ↦ elim (Bool-cases (timers tfd2)) [
            | inl e2 ↦ rw (ok, t1, t2, e1, e2)
            | inr e2 ↦ rw (ok, t1, t2, e1, e2)
          ]
        ]
  ]

  -- The answers of `poll` in a run of the loop.
  abbrev pub Answered : List (Timers × PollAnswer pollin tfd1 tfd2) → Timers → Type 0
  Answered [] timers = Unit
  Answered ((expired, a) ∷ rounds) timers =
      Answers (expire pollin tfd1 tfd2 expired timers) a
      × Answered rounds
          (poll_round pollin tfd1 tfd2 a (expire pollin tfd1 tfd2 expired timers)).timers

  expired_reads_ready : (timers : Timers) → All (λ r. r.waited ≡ false) (expired_reads timers)
  expired_reads_ready timers = elim (Bool-cases (timers tfd1)) [
    | inl e1 ↦ elim (Bool-cases (timers tfd2)) [
      | inl e2 ↦ rw (e1, e2) (refl, (refl, tt))
      | inr e2 ↦ rw (e1, e2) (refl, tt)
    ]
    | inr e1 ↦ elim (Bool-cases (timers tfd2)) [
      | inl e2 ↦ rw (e1, e2) (refl, tt)
      | inr e2 ↦ rw (e1, e2) tt
    ]
  ]

  round_ready :
      (timers : Timers) (a : PollAnswer pollin tfd1 tfd2)
      → pollin ≢ 0
      → tfd1 ≢ tfd2
      → Answers timers a
      → All (λ r. r.waited ≡ false) (poll_round pollin tfd1 tfd2 a timers).log
  round_ready timers a nz ne k = elim (Bool-cases (ltb_ℤ (pos 0) a.ret)) [
    | inr failed ↦ rw (poll_reads_expired timers a nz ne k, failed) tt
    | inl ok ↦ rw (poll_reads_expired timers a nz ne k, ok) (expired_reads_ready timers)
  ]

  -- The loop with poll never waits in a read, however the timers expire and whether `poll` fails.
  pub poll_never_waits :
      (rounds : List (Timers × PollAnswer pollin tfd1 tfd2)) (timers : Timers)
      → pollin ≢ 0
      → tfd1 ≢ tfd2
      → Answered rounds timers
      → All (λ r. r.waited ≡ false) (poll_loop pollin tfd1 tfd2 rounds timers)
  poll_never_waits [] timers nz ne k = tt
  poll_never_waits ((expired, a) ∷ rounds) timers nz ne k =
      All-append (λ (r : Read). r.waited ≡ false) _ _ (round_ready _ a nz ne k.0)
        (poll_never_waits rounds _ nz ne k.1)
