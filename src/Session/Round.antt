-- ===== src/Session/Round.antt =====
-- The event loop of `handle_events` of tun2http/session.c.
use nroxy.Prelude.{
  ℕ, zero, suc, ◌+◌, ◌*◌, Bool, true, false, ◌&&◌, not, Option, none, some, List, ltb,
  if◌then◌else◌,
}
use nroxy.Prelude.Int.{ℤ}
use nroxy.Os.{
  Kernel, Trace, M, pure, ◌>>=◌, ◌>>◌, Errno, eintr, Polled, polled, poll_failed, ask, log_call,
  get_time, get_ms, epoll_create, watch_pipe, watch_tun, epoll_wait,
}
use nroxy.Net.Session.{Arguments, NgSession}
use nroxy.Session.Count.{count_sessions, max_sessions}
use nroxy.Session.Pass.{monitor_sessions, check_sessions}
use nroxy.Session.Allowed.{check_allowed}
use nroxy.Session.Events.{Ending, proceeds, check_events}

-- What the loop keeps from one round to the next; `stopping` also stands for a `break`, and
-- `has_epoll` is that the epoll file was created.
pub record Loop : Type 0 where
  pub sessions : List NgSession
  pub last_check : ℕ
  pub stopping : Bool
  pub has_epoll : Bool

abbrev pub is_eintr : Errno → Bool
is_eintr eintr = true
is_eintr _ = false

abbrev pub is_proceeds : Ending → Bool
is_proceeds proceeds = true
is_proceeds _ = false

module _ (k : Kernel) where
  -- Check sessions, unless they were checked within the last `EPOLL_MIN_CHECK` milliseconds: the
  -- state, the time to wait in seconds, and whether to check again soon.
  unfoldable pub check_round : ℕ → ℕ → Bool → Loop → M (Loop × ℕ × Bool)
  check_round count maxsessions recheck l = do
    ms ← ask k.milliseconds
    log_call get_ms
    if ltb (l.last_check + 100) ms
        then (do
          now ← get_time k
          (left, timeout) ← check_sessions k count maxsessions now l.sessions 3600
          pure (record l { sessions = left; last_check = ms }, timeout, recheck))
        else pure (l, 3600, true)

module _ (k : Kernel) (args : Arguments) (uid : Trace → List ℕ → ℤ) where
  -- What is done with the result of `epoll_wait`.
  unfoldable pub take_events : Polled → ℕ → ℕ → Loop → M (Option Loop)
  take_events (poll_failed e) count maxsessions l =
      pure (some (if is_eintr e then l else record l { stopping = true }))
  take_events (polled ready) count maxsessions l = do
    result ← check_events k args uid ready count maxsessions l.sessions
    elim result [
      | none ↦ pure none
      | some (left, ending) ↦
          pure (some (record l { sessions = left; stopping = not (is_proceeds ending) }))
    ]

  -- The body of the loop. `none` is as for `check_events`.
  unfoldable pub round : ℕ → Loop → M (Option Loop)
  round maxsessions l = do
    let count = count_sessions l.sessions
    (monitored, recheck) ← monitor_sessions k l.sessions
    (checked, timeout, again) ←
        check_round k count maxsessions recheck (record l { sessions = monitored })
    let wait = if again then 100 else timeout * 1000
    result ← ask λ tr. k.polls tr wait
    log_call (epoll_wait wait)
    take_events result count maxsessions checked

  -- At most `n` rounds of the loop.
  unfoldable pub rounds : ℕ → ℕ → Loop → M (Option Loop)
  rounds zero maxsessions l = pure (some l)
  rounds (suc n) maxsessions l = elim l.stopping [
    | true ↦ pure (some l)
    | false ↦ (do
      result ← round maxsessions l
      elim result [ none ↦ pure none | some l' ↦ rounds n maxsessions l' ])
  ]

  -- What comes before the loop.
  unfoldable pub begin : List NgSession → M Loop
  begin sessions = do
    allowed ← check_allowed k sessions
    created ← ask k.creates_epoll
    log_call epoll_create
    pipe ← ask k.watches_pipe
    log_call watch_pipe
    tun ← ask k.watches_tun
    log_call watch_tun
    pure (record {
      sessions = allowed;
      last_check = 0;
      stopping = not (created && (pipe && tun));
      has_epoll = created;
    })

  -- `handle_events` with its first `n` rounds, under a file limit of `rlim_cur`.
  unfoldable pub handle_events : ℕ → ℕ → List NgSession → M (Option Loop)
  handle_events n rlim_cur sessions = do l ← begin sessions; rounds n (max_sessions rlim_cur) l
