-- ===== src/Components2/Waits.antt =====
-- The rounds with epoll against those with poll, and the entry that a round leaves to the next.
use railab_nuttx_code.Prelude.{
  ℕ, ◌++◌, List, not, if◌then◌else◌, ◌≡◌, ◌≢◌, refl, sym, true, false, [], ◌∷◌, pos, ltb_ℤ, ◌==◌,
  ==_iff, arith, Bool-cases, inl, inr,
}
use mathlib.Core.List.{reverse}
use railab_nuttx_code.Components2.{
  Timers, PollAnswer, poll_round, timer_read, Event, Events, EpollAnswer, failed, one, two, Read,
  added, epoll_round,
}

module _ (pollin tfd1 tfd2 : ℕ) where
  -- An entry that says that the timer `fd` has expired.
  abbrev pub entry : ℕ → Event pollin tfd1 tfd2
  entry fd = record { events = pollin; fd = fd }

  same_fd : (fd : ℕ) → (fd == fd) ≡ true
  same_fd fd = (==_iff fd fd).1 refl

  different : (a b : ℕ) → a ≢ b → (b == a) ≡ false
  different a b ne = ground arith

  -- What poll and epoll_wait promise of one state of the timers: they fail together, and otherwise report
  -- the same events of the same timers, with an entry of epoll_wait for each timer that has any, in
  -- either order.
  pub data SameReport (a : PollAnswer pollin tfd1 tfd2)
      : EpollAnswer pollin tfd1 tfd2 → Type 0 where
    both_fail : ltb_ℤ (pos 0) a.ret ≡ false → SameReport a failed
    first_only :
        ltb_ℤ (pos 0) a.ret ≡ true
        → a.revents2 ≡ 0
        → SameReport a
            (one (record { events = a.revents1; fd = (added pollin tfd1 tfd2).first.fd }))
    second_only :
        ltb_ℤ (pos 0) a.ret ≡ true
        → a.revents1 ≡ 0
        → SameReport a
            (one (record { events = a.revents2; fd = (added pollin tfd1 tfd2).second.fd }))
    in_order :
        ltb_ℤ (pos 0) a.ret ≡ true
        → SameReport a (
            two
              (record { events = a.revents1; fd = (added pollin tfd1 tfd2).first.fd })
              (record { events = a.revents2; fd = (added pollin tfd1 tfd2).second.fd }))
    swapped :
        ltb_ℤ (pos 0) a.ret ≡ true
        → SameReport a (
            two
              (record { events = a.revents2; fd = (added pollin tfd1 tfd2).second.fd })
              (record { events = a.revents1; fd = (added pollin tfd1 tfd2).first.fd }))

  -- The reads of a round in the order of the entries.
  abbrev pub as_reported : EpollAnswer pollin tfd1 tfd2 → List Read → List Read
  as_reported (two e f) log = if e.fd == tfd2 then reverse log else log
  as_reported _ log = log

  -- The read for the second entry where epoll_wait filled the first one only: it waits unless the timer
  -- of that entry has expired and was not read.
  abbrev pub stale_reads :
      EpollAnswer pollin tfd1 tfd2 → Events pollin tfd1 tfd2 → (left : Timers) → List Read
  stale_reads (one e) es left =
      if es.second.events == pollin
      then record { fd = es.second.fd; waited = not (left es.second.fd) } ∷ []
      else []
  stale_reads _ es left = []

  silent : pollin ≢ 0 → (0 == pollin) ≡ false
  silent nz = ground arith

  -- With two different timers and a POLLIN that is not 0, and where poll and epoll_wait report the same,
  -- whatever events these are: a round with epoll reads what a round with poll reads, in the order of the
  -- report, and no more than that if both fail or two timers are reported; if one timer is reported it
  -- also reads the timer that the second entry of the array still names, exactly if that entry holds
  -- POLLIN, and waits for it if the round with poll leaves it unexpired.
  pub epoll_against_poll :
      (es : Events pollin tfd1 tfd2) (timers : Timers) (a : PollAnswer pollin tfd1 tfd2)
      (w : EpollAnswer pollin tfd1 tfd2)
      → pollin ≢ 0
      → tfd1 ≢ tfd2
      → SameReport a w
      → (epoll_round pollin tfd1 tfd2 w es timers).1.log
        ≡ as_reported w (poll_round pollin tfd1 tfd2 a timers).log
          ++ stale_reads w es (poll_round pollin tfd1 tfd2 a timers).timers
  unfolding epoll_round poll_round timer_read
  epoll_against_poll es timers a failed nz ne (both_fail fail) = rw fail refl
  epoll_against_poll es timers a (one _) nz ne (first_only ok off) =
      elim (Bool-cases (a.revents1 == pollin)) [
        | inl in1 ↦ elim (Bool-cases (es.second.events == pollin)) [
          | inl old ↦ rw (ok, off, silent nz, in1, old) refl
          | inr old ↦ rw (ok, off, silent nz, in1, old) refl
        ]
        | inr out1 ↦ elim (Bool-cases (es.second.events == pollin)) [
          | inl old ↦ rw (ok, off, silent nz, out1, old) refl
          | inr old ↦ rw (ok, off, silent nz, out1, old) refl
        ]
      ]
  epoll_against_poll es timers a (one _) nz ne (second_only ok off) =
      elim (Bool-cases (a.revents2 == pollin)) [
        | inl in2 ↦ elim (Bool-cases (es.second.events == pollin)) [
          | inl old ↦ rw (ok, off, silent nz, in2, old) refl
          | inr old ↦ rw (ok, off, silent nz, in2, old) refl
        ]
        | inr out2 ↦ elim (Bool-cases (es.second.events == pollin)) [
          | inl old ↦ rw (ok, off, silent nz, out2, old) refl
          | inr old ↦ rw (ok, off, silent nz, out2, old) refl
        ]
      ]
  epoll_against_poll es timers a (two _ _) nz ne (in_order ok) =
      let apart = different tfd2 tfd1 (λ e. ne (sym e)) in
      elim (Bool-cases (a.revents1 == pollin)) [
        | inl in1 ↦ elim (Bool-cases (a.revents2 == pollin)) [
          | inl in2 ↦ rw (ok, in1, in2, different tfd1 tfd2 ne, apart) refl
          | inr out2 ↦ rw (ok, in1, out2, apart) refl
        ]
        | inr out1 ↦ elim (Bool-cases (a.revents2 == pollin)) [
          | inl in2 ↦ rw (ok, out1, in2, apart) refl
          | inr out2 ↦ rw (ok, out1, out2, apart) refl
        ]
      ]
  epoll_against_poll es timers a (two _ _) nz ne (swapped ok) =
      let apart = different tfd2 tfd1 (λ e. ne (sym e)) in
      let own = same_fd tfd2 in
      elim (Bool-cases (a.revents1 == pollin)) [
        | inl in1 ↦ elim (Bool-cases (a.revents2 == pollin)) [
          | inl in2 ↦ rw (ok, in1, in2, different tfd1 tfd2 ne, own, apart) refl
          | inr out2 ↦ rw (ok, in1, out2, own) refl
        ]
        | inr out1 ↦ elim (Bool-cases (a.revents2 == pollin)) [
          | inl in2 ↦ rw (ok, out1, in2, own) refl
          | inr out2 ↦ rw (ok, out1, out2, own) refl
        ]
      ]

  -- What an earlier round left in the second entry is taken for an event: after a round in which two
  -- timers were reported, `a` before `b`, a round in which only one of the timers has expired and is
  -- reported reads that timer, and then waits in a read of `b`.
  pub epoll_stale_waits :
      (a b fd : ℕ) (es : Events pollin tfd1 tfd2) (before timers : Timers)
      → timers fd ≡ true
      → (b ≢ fd → timers b ≡ false)
      → (epoll_round pollin tfd1 tfd2
          (one (entry fd))
          (epoll_round pollin tfd1 tfd2 (two (entry a) (entry b)) es before).0
          timers).1.log
        ≡ record { fd = fd; waited = false } ∷ record { fd = b; waited = true } ∷ []
  unfolding epoll_round timer_read
  epoll_stale_waits a b fd es before timers e others = elim (Bool-cases (b == fd)) [
    | inl same ↦ rw (same_fd pollin, e, same)
    | inr new ↦ let off = others (λ q. cc ((==_iff b fd).1 q)) in rw (same_fd pollin, e, new, off)
  ]
