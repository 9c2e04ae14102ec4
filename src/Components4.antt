-- ===== src/Components4.antt =====
-- The semaphore of apps/mini_components4, components4_main.c: who posts, and what `main` prints.
pub mod Counts
pub mod Drain
mod Tests
use railab_nuttx_code.Prelude.{
  ℕ, suc, ◌+◌, ◌-◌, ◌<◌, ◌≤◌, ◌≡◌, Bool, true, false, List, [], ◌∷◌, ◌++◌, ℤ, pos, ltb_ℤ,
  if◌then◌else◌, ◌==◌, ◌&&◌,
}

-- CONFIG_RAILAB_MINIMAL_COMPONENTS4_THREAD, ..._POSIXTIMER and ..._POSIXTIMER_SIGENV.
pub record Config : Type 0 where
  pub thread : Bool
  pub posixtimer : Bool
  pub sigenv : Bool

-- How a timer tells that it has expired: by a signal, or by a call of sigev_callback.
pub data Notify : Type 0 where
  sigev_signal : Notify
  sigev_thread : Notify

-- The field sigev_notify that `main` sets up.
abbrev pub notify : Config → Notify
notify c = if c.sigenv then sigev_thread else sigev_signal

abbrev is_thread : Notify → Bool
is_thread sigev_signal = false
is_thread sigev_thread = true

-- Whether there is a timer that calls sigev_callback.
abbrev pub timer_posts : Config → Bool
timer_posts c = c.posixtimer && is_thread (notify c)

-- The lines that `main` prints.
pub data Line : Type 0 where
  sem : Line
  eintr_line : Line

-- One round of the loop of `main` on what sem_wait returns; `eintr` is EINTR.
unfoldable pub main_round : (eintr : ℕ) (ret : ℤ) (errno : ℕ) → List Line
main_round eintr ret errno =
    if ltb_ℤ ret (pos 0) then (if errno == eintr then eintr_line ∷ [] else []) else sem ∷ []

-- Semaphores: what a call of sem_post and one of sem_wait can make of a semaphore, by the result of the
-- call, and the value that sem_getvalue gives.
pub record Semaphore : Type 1 where
  pub Sem : Type 0
  pub value : Sem → ℕ
  pub Posts : Sem → (ret : ℤ) → Sem → Type 0
  pub Waits : Sem → (ret : ℤ) (errno : ℕ) → Sem → Type 0

-- What POSIX says of them: a post adds one and a wait takes one, a call that fails changes nothing, and a
-- wait for a semaphore with a value can succeed.
pub record IsCounting (p : Semaphore) : Type 0 where
  pub post_counts :
      (s t : p.Sem) (ret : ℤ)
      → p.Posts s ret t
      → ltb_ℤ ret (pos 0) ≡ false
      → p.value t ≡ suc (p.value s)
  pub post_fails :
      (s t : p.Sem) (ret : ℤ) → p.Posts s ret t → ltb_ℤ ret (pos 0) ≡ true → p.value t ≡ p.value s
  pub wait_takes :
      (s t : p.Sem) (ret : ℤ) (errno : ℕ)
      → p.Waits s ret errno t
      → ltb_ℤ ret (pos 0) ≡ false
      → p.value s ≡ suc (p.value t)
  pub wait_fails :
      (s t : p.Sem) (ret : ℤ) (errno : ℕ)
      → p.Waits s ret errno t
      → ltb_ℤ ret (pos 0) ≡ true
      → p.value t ≡ p.value s
  pub wait_returns : (s : p.Sem) → 0 < p.value s → (t : p.Sem) × p.Waits s (pos 0) 0 t

-- `posts` and `dropped` are no data of the program: the calls of sem_post so far, and those that failed.
pub record System (Sem : Type 0) : Type 0 where
  pub g_sem : Sem
  pub printed : List Line
  pub posts : ℕ
  pub dropped : ℕ

-- A call of sem_post, whose result neither `thread` nor sigev_callback looks at.
abbrev pub posted : {Sem : Type 0} → (ret : ℤ) → Sem → System Sem → System Sem
posted ret g s = record s {
  g_sem = g;
  posts = suc s.posts;
  dropped = if ltb_ℤ ret (pos 0) then suc s.dropped else s.dropped;
}

module _ (p : Semaphore) (eintr : ℕ) (c : Config) where
  pub data Step (s : System p.Sem) : System p.Sem → Type 0 where
    thread_post :
        (ret : ℤ) (g : p.Sem) → c.thread ≡ true → p.Posts s.g_sem ret g → Step s (posted ret g s)
    callback_post :
        (ret : ℤ) (g : p.Sem)
        → timer_posts c ≡ true
        → p.Posts s.g_sem ret g
        → Step s (posted ret g s)
    -- `main`, when sem_wait returns
    main_waits :
        (ret : ℤ) (errno : ℕ) (g : p.Sem)
        → p.Waits s.g_sem ret errno g
        → Step s (record s { g_sem = g; printed = s.printed ++ main_round eintr ret errno })

  -- `first` is what g_sem is at first: no code initialises it.
  pub data Reach (first : p.Sem) : System p.Sem → Type 0 where
    start : Reach first (record { g_sem = first; printed = []; posts = 0; dropped = 0 })
    later : {s t : System p.Sem} → Reach first s → Step s t → Reach first t
