-- ===== src/Components2.antt =====
-- The two timers of apps/mini_components2: which of them `main` of components2_main.c reads in a round,
-- with poll, with epoll, and without either.
pub mod Polled
pub mod Waits
pub mod Clock
mod Tests
use railab_nuttx_code.Prelude.{
  ℕ, Bool, true, false, not, List, [], ◌∷◌, ◌++◌, ℤ, pos, ltb_ℤ, if◌then◌else◌, ◌==◌, ◌||◌,
}

-- A timer's file descriptor as documented: whether it has expired since it was last read. A read waits
-- until it has.
abbrev pub Timers : Type 0
Timers = ℕ → Bool

pub record Read : Type 0 where
  pub fd : ℕ
  pub waited : Bool

-- The timers behind some reads, and the reads in order.
pub record Reads : Type 0 where
  pub timers : Timers
  pub log : List Read

-- The start of a round: nothing read yet.
abbrev pub unread : Timers → Reads
unread timers = record { timers = timers; log = [] }

-- timer_read: the read; what it prints and its result, which nobody uses, are left out.
unfoldable pub timer_read : (fd : ℕ) → Reads → Reads
timer_read fd r = record {
  timers = λ other. if other == fd then false else r.timers other;
  log = r.log ++ record { fd = fd; waited = not (r.timers fd) } ∷ [];
}

-- A timer that is read if the test holds.
abbrev pub read_if : Bool → (fd : ℕ) → Reads → Reads
read_if test fd r = if test then timer_read fd r else r

-- `pollin` is POLLIN, and EPOLLIN, which is the same number.
module _ (pollin tfd1 tfd2 : ℕ) where
  -- struct pollfd and the array `fds`, without `revents`.
  pub record PollFd : Type 0 where
    pub fd : ℕ
    pub events : ℕ

  abbrev pub fds1 : PollFd
  fds1 = record { fd = tfd1; events = pollin }

  abbrev pub fds2 : PollFd
  fds2 = record { fd = tfd2; events = pollin }

  -- What `poll` returns: its result, and what it sets in the two `revents`, which are 0 before.
  pub record PollAnswer : Type 0 where
    pub ret : ℤ
    pub revents1 : ℕ
    pub revents2 : ℕ

  -- One round with CONFIG_RAILAB_MINIMAL_COMPONENTS2_POLL.
  unfoldable pub poll_round : PollAnswer → Timers → Reads
  unfolding timer_read
  poll_round a timers =
      if ltb_ℤ (pos 0) a.ret
      then read_if (a.revents2 == pollin) tfd2 (read_if (a.revents1 == pollin) tfd1 (unread timers))
      else unread timers

  -- struct epoll_event, and the array `events` of two of them.
  pub record Event : Type 0 where
    pub events : ℕ
    pub fd : ℕ

  pub record Events : Type 0 where
    pub first : Event
    pub second : Event

  -- The two events that `main` adds to epoll.
  abbrev pub added : Events
  added = record {
    first = record { events = pollin; fd = tfd1 };
    second = record { events = pollin; fd = tfd2 };
  }

  -- What `epoll_wait` returns: the entries that it fills, from the first on, or an error.
  pub data EpollAnswer : Type 0 where
    failed : EpollAnswer
    one : Event → EpollAnswer
    two : Event → Event → EpollAnswer

  abbrev pub fill : EpollAnswer → Events → Events
  fill failed es = es
  fill (one e) es = record es { first = e }
  fill (two e f) es = record { first = e; second = f }

  abbrev pub any : EpollAnswer → Bool
  any failed = false
  any (one e) = true
  any (two e f) = true

  -- One round with CONFIG_RAILAB_MINIMAL_COMPONENTS2_EPOLL: `events` behind it, and the reads. The array
  -- keeps what an earlier round left in it.
  unfoldable pub epoll_round : EpollAnswer → Events → Timers → Events × Reads
  unfolding timer_read
  epoll_round a es timers =
      let es = fill a es in
      (
        es,
        if any a
            then read_if (es.second.events == pollin) es.second.fd
                (read_if (es.first.events == pollin) es.first.fd (unread timers))
            else unread timers,
      )

  -- One round with CONFIG_RAILAB_MINIMAL_COMPONENTS2_TIMERFD alone.
  unfoldable pub busy_round : Timers → Reads
  unfolding timer_read
  busy_round timers = timer_read tfd2 (timer_read tfd1 (unread timers))

  -- The loop with poll: before each round some timers expire.
  abbrev pub expire : (expired : Timers) → Timers → Timers
  expire expired timers fd = expired fd || timers fd

  abbrev pub poll_loop : List (Timers × PollAnswer) → Timers → List Read
  poll_loop [] timers = []
  poll_loop ((expired, a) ∷ rounds) timers =
      let r = poll_round a (expire expired timers) in r.log ++ poll_loop rounds r.timers
