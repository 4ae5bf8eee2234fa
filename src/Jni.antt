-- ===== src/Jni.antt =====
-- The life of the relay as tun2http/tun2http.c gives it to the Java service: at most one thread runs
-- `handle_events`, and the sessions outlive it until they are cleared.
pub mod Life
pub mod Stop
use nroxy.Prelude.{ℕ, true, false, Option, none, some, List, [], if◌then◌else◌}
use nroxy.Prelude.Int.{ℤ}
use nroxy.Os.{
  Kernel, Trace, M, pure, ◌>>=◌, ◌>>◌, ask, log_call, create_thread, join_thread, write_pipe,
  close_pipe, close_epoll,
}
use nroxy.Net.Session.{Arguments, NgSession}
use nroxy.Session.Clear.{clear}
use nroxy.Session.Count.{max_sessions}
use nroxy.Session.Round.{Loop, round, rounds, begin}

-- What the thread keeps besides the sessions.
pub record Thread : Type 0 where
  pub args : Arguments
  pub maxsessions : ℕ
  pub last_check : ℕ

-- `ng_session` and `thread_id`.
pub record Service : Type 0 where
  pub sessions : List NgSession
  pub thread : Option Thread

-- The library as it is loaded.
abbrev pub loaded : Service
loaded = record { sessions = []; thread = none }

-- Sessions that are there are forgotten, their sockets are not closed.
unfoldable pub jni_init : Service → Service
jni_init s = record s { sessions = [] }

-- A thread that runs has created its epoll file.
abbrev pub loop_of : List NgSession → Thread → Loop
loop_of sessions t = record {
  sessions = sessions;
  last_check = t.last_check;
  stopping = false;
  has_epoll = true;
}

module _ (k : Kernel) (uid : Trace → List ℕ → ℤ) where
  -- The thread after a step of its loop; where the loop is left, the thread ends.
  unfoldable pub after_loop : Thread → Loop → M Service
  after_loop t l =
      if l.stopping
      then (if l.has_epoll
          then log_call close_epoll >> pure (record { sessions = l.sessions; thread = none })
          else pure (record { sessions = l.sessions; thread = none }))
      else pure
          (record { sessions = l.sessions; thread = some (record t { last_check = l.last_check }) })

  -- Start the thread, unless one runs. What comes before its loop is done at once.
  unfoldable pub jni_start : Arguments → Service → M Service
  jni_start args s = elim s.thread [
    | some _ ↦ pure s
    | none ↦ (do
      created ← ask k.creates_thread
      log_call create_thread
      limit ← ask k.file_limit
      if created
          then (do
            l ← begin k args uid s.sessions
            after_loop
                (record {
                  args = args;
                  maxsessions = max_sessions limit;
                  last_check = l.last_check;
                })
                l)
          else pure s)
  ]

  -- A round of the thread's loop. `none` is as for `round`.
  unfoldable pub thread_round : Service → M (Option Service)
  thread_round s = elim s.thread [
    | none ↦ pure (some s)
    | some t ↦ (do
      result ← round k t.args uid t.maxsessions (loop_of s.sessions t)
      elim result [ none ↦ pure none | some l ↦ (do s' ← after_loop t l; pure (some s')) ])
  ]

  -- Write to the pipe, wait for the thread, and clear. The thread makes at most `n` more rounds;
  -- `none` is that it has not ended then, or is as for `round`. Where the pipe cannot be written, the
  -- sessions are cleared all the same, and the thread goes on.
  unfoldable pub jni_stop : ℕ → Service → M (Option Service)
  jni_stop n s = elim s.thread [
    | none ↦ pure (some s)
    | some t ↦ (do
      written ← ask k.writes_pipe
      log_call write_pipe
      if written
          then (do
            result ← rounds k t.args uid n t.maxsessions (loop_of s.sessions t)
            elim result [
              | none ↦ pure none
              | some l ↦
                  (if l.stopping
                    then (do
                      log_call close_epoll
                      log_call join_thread
                      cleared ← clear l.sessions
                      pure (some (record { sessions = cleared; thread = none })))
                    else pure none)
            ])
          else (do cleared ← clear s.sessions; pure (some (record s { sessions = cleared }))))
  ]

  -- The thread is not asked about.
  unfoldable pub jni_done : Service → M Service
  jni_done s = do
    cleared ← clear s.sessions
    log_call close_pipe
    log_call close_pipe
    pure (record s { sessions = cleared })
