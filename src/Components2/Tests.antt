-- ===== src/Components2/Tests.antt =====
-- The theorems on the two timers at concrete rounds: POLLIN is 1, the timers are 3 and 4.
use railab_nuttx_code.Prelude.{
  ℕ, ◌++◌, ◌+◌, ◌-◌, ◌*◌, ◌<◌, ltb, if◌then◌else◌, ◌≡◌, ◌≢◌, refl, true, false, [], ◌∷◌, pos,
  negsuc, ◌==◌, arith, All,
}
use railab_nuttx_code.Components2.{
  Timers, PollAnswer, Events, poll_round, poll_loop, epoll_round, timer_read, one, two,
}
use railab_nuttx_code.Components2.Clock.{
  ITimerSpec, expirations, TimedRead, IsTimerRead, timed_loop, busy_reads_once,
}
use railab_nuttx_code.Components2.Polled.{poll_never_waits}
use railab_nuttx_code.Components2.Waits.{entry, second_only, epoll_against_poll, epoll_stale_waits}

abbrev both : Timers
both fd = true

abbrev only4 : Timers
only4 fd = fd == 4

abbrev none_yet : Timers
none_yet fd = false

abbrev answer : ℕ → ℕ → PollAnswer 1 3 4
answer a b = record { ret = pos 2; revents1 = a; revents2 = b }

abbrev never : PollAnswer 1 3 4
never = record { ret = negsuc 3; revents1 = 0; revents2 = 0 }

abbrev no_events : Events 1 3 4
no_events = record { first = record { events = 0; fd = 0 }; second = record { events = 0; fd = 0 } }

apart : ◌≢◌ {A = ℕ} 3 4
apart e = absurd (omega arith)

poll_never_waits_example :
    All
      (λ r. r.waited ≡ false)
      (poll_loop 1 3 4 ((both, answer 1 1) ∷ (none_yet, never) ∷ (only4, answer 0 1) ∷ []) none_yet)
unfolding poll_round timer_read
poll_never_waits_example =
    poll_never_waits 1 3 4 ((both, answer 1 1) ∷ (none_yet, never) ∷ (only4, answer 0 1) ∷ [])
      none_yet (λ e. absurd (omega arith)) apart
      (
        record { revents1 = refl; revents2 = refl },
        (
          record { revents1 = refl; revents2 = refl },
          (record { revents1 = refl; revents2 = refl }, tt),
        ),
      )

-- What an earlier round left: first the timer 4, then the timer 3.
abbrev left_over : Events 1 3 4
left_over = record { first = entry 1 3 4 4; second = entry 1 3 4 3 }

epoll_against_poll_example :
    (epoll_round 1 3 4 (one (entry 1 3 4 4)) left_over only4).1.log
    ≡ (poll_round 1 3 4 (answer 0 1) only4).log ++ record { fd = 3; waited = true } ∷ []
unfolding poll_round timer_read
epoll_against_poll_example =
    epoll_against_poll 1 3 4 left_over only4 (answer 0 1) (one (entry 1 3 4 4))
      (λ e. absurd (omega arith)) apart (second_only refl refl)

epoll_stale_waits_example :
    (epoll_round 1 3 4
      (one (entry 1 3 4 4))
      (epoll_round 1 3 4 (two (entry 1 3 4 4) (entry 1 3 4 3)) no_events both).0
      only4).1.log
    ≡ record { fd = 4; waited = false } ∷ record { fd = 3; waited = true } ∷ []
epoll_stale_waits_example = epoll_stale_waits 1 3 4 4 3 4 no_events both only4 refl (λ ne. refl)

-- A timer's file descriptor that does what is documented.
abbrev read_timer : ITimerSpec → (now seen : ℕ) → TimedRead
read_timer spec now seen =
    if ltb seen (expirations spec now)
    then record { now = now; value = expirations spec now - seen; seen = expirations spec now }
    else record { now = spec.it_value + seen * spec.it_interval; value = 1; seen = seen + 1 }

some_unread : (a b : ℕ) → a < b → ltb a b ≡ true
some_unread a b h = ground arith

none_unread : (a b : ℕ) → b ≡ a → ltb a b ≡ false
none_unread a b h = ground arith

read_timer-IsTimerRead : IsTimerRead read_timer
read_timer-IsTimerRead = record {
  expired = λ spec now seen h. rw (some_unread seen (expirations spec now) h);
  waits = λ spec now seen e. rw (none_unread seen (expirations spec now) e);
}

busy_reads_once_example :
    timed_loop read_timer (5 ∷ 999 ∷ 0 ∷ []) (record { now = 3; seen1 = 0; seen2 = 0 })
    ≡ record { now = 2000; value1 = 1; value2 = 1 }
      ∷ record { now = 4000; value1 = 1; value2 = 1 }
      ∷ record { now = 6000; value1 = 1; value2 = 1 }
      ∷ []
busy_reads_once_example =
    busy_reads_once read_timer read_timer-IsTimerRead (5 ∷ 999 ∷ 0 ∷ []) 3
      (omega arith, (omega arith, (omega arith, tt))) (omega arith)
