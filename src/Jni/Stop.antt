-- ===== src/Jni/Stop.antt =====
-- The life of the relay as a whole: what holds at any time, and what a stop leaves, in
-- tun2http/tun2http.c.
use nroxy.Prelude.{ℕ, suc, ◌≡◌, refl, ◌⊎◌, inl, inr, true, false, Option, none, some, List, [], ◌∷◌}
use nroxy.Prelude.Int.{ℤ}
use mathlib.Core.Path.{subst}
use nroxy.Os.{Kernel, Trace, polled, Ready, write_pipe, join_thread, close_epoll}
use nroxy.Net.Session.{NgSession}
use nroxy.Session.Clear.{clear}
use nroxy.Session.Round.{Loop, round, rounds, take_events}
use nroxy.Session.Stop.{reported, has_pipe, Leaves, round-Leaves, stop_ends_loop}
use nroxy.Session.Watch.{watched, IsHeld}
use nroxy.Session.Watch.Loop.{LoopGood, round-LoopGood}
use nroxy.Jni.{Thread, Service, loaded, jni_init, loop_of, jni_stop}
use nroxy.Jni.Life.{
  carried, clear-watched, Step, start, turn, stop, done, Reach, here, next, Sound, Sounds,
  start-Sound, round-Sounds, stop-Sounds, jni_done-Sound, after_stop,
}

module _ (k : Kernel) (uid : Trace → List ℕ → ℤ) (w : ℕ) where
  of_Sounds :
      (result : Option Service) (s : Service) (tr : Trace)
      → result ≡ some s
      → Sounds k uid w result tr
      → Sound k uid w s tr
  of_Sounds result s tr e h = subst (λ r. Sounds k uid w r tr) e h

  Step-Sound :
      {s : Service} {tr : Trace} {s' : Service} {tr' : Trace}
      → Step k uid s tr s' tr'
      → Sound k uid w s tr
      → Sound k uid w s' tr'
  Step-Sound {s} {tr} (start args) h = start-Sound k uid w args s.sessions s.thread tr h.0 h.1
  Step-Sound {s} {tr} (turn s' e) h =
      of_Sounds _ s' _ e (round-Sounds k uid w s.sessions s.thread tr h.0 h.1)
  Step-Sound {s} {tr} (stop n s' e) h =
      of_Sounds _ s' _ e (stop-Sounds k uid w n s.sessions s.thread tr h.0 h.1)
  Step-Sound {s} {tr} done h = jni_done-Sound k uid w s tr h

  -- At any time in the life of the relay, from its initialisation through any sequence of starts,
  -- rounds of the thread, stops and ends that have a result, however the client, the kernel and the
  -- clock behave: a TCP session in CLOSE, FIN_WAIT1 or LAST_ACK has no socket, a UDP session that is
  -- closed or blocked has none, and a socket that epoll watches belongs to a session of the list,
  -- whatever its protocol. A round has no result where a parser reads behind its packet or does not end,
  -- where bytes are written out of bounds, and where an event is for a socket that no session has; a
  -- stop also where the thread has not ended within the rounds that it is given. Nothing is said of the
  -- sockets of a TCP session in CLOSING and of an ICMP session that is stopped.
  pub Reach-Sound :
      {s : Service} {tr : Trace} → Reach k uid (jni_init loaded) [] s tr → Sound k uid w s tr
  unfolding jni_init
  Reach-Sound here = (tt, inl refl)
  Reach-Sound (next r st) = Step-Sound st (Reach-Sound r)

  -- What a stop does where its last round is undefined, and where it is not.
  abbrev Outcome : Option Loop → Option Service → Trace → Type 0
  Outcome result after tr =
      (result ≡ none)
      ⊎ ((s : Service) × ((after ≡ some s)
            × ((s.sessions ≡ []) × ((s.thread ≡ none) × (watched w tr ≡ false)))))

  stop_cases :
      (result : Option Loop) (l : Loop) (tr tr' : Trace)
      → IsHeld w l.sessions tr
      → LoopGood k w l tr result tr'
      → Leaves result
      → let after = after_stop k uid w result tr' in Outcome result after.0 after.1
  stop_cases none l tr tr' held g h = inl refl
  stop_cases (some l') l tr tr' held g h =
      let calls = join_thread ∷ close_epoll ∷ tr' in
      let held' = carried k uid w l.sessions l'.sessions tr tr' held g.1 in
      let (empty, free) = clear-watched w l'.sessions calls held' in
      rw (h, after_stop)
        (inr (
          record { sessions = (clear l'.sessions calls).0; thread = none },
          (refl, (empty, (refl, free))),
        ))

  -- A stop while the thread runs and the pipe can be written, at a time when `epoll_wait` then reports
  -- the pipe: the thread ends with its next round, however many it may make. Unless that round is
  -- undefined, the stop returns: no thread runs, there is no session, and epoll watches no socket.
  pub jni_stop_releases :
      (n : ℕ) (sessions : List NgSession) (t : Thread) (tr : Trace) (ready : List Ready)
      → Sound k uid w (record { sessions = sessions; thread = some t }) tr
      → k.writes_pipe tr ≡ true
      → reported k t.args uid t.maxsessions (loop_of sessions t) (write_pipe ∷ tr) ≡ polled ready
      → has_pipe ready ≡ true
      → let result = round k t.args uid t.maxsessions (loop_of sessions t) (write_pipe ∷ tr) in
        let after = jni_stop k uid (suc n) (record { sessions = sessions; thread = some t }) tr in
        (result.0 ≡ none)
        ⊎ ((s : Service) × ((after.0 ≡ some s)
              × ((s.sessions ≡ []) × ((s.thread ≡ none) × (watched w after.1 ≡ false)))))
  unfolding jni_stop round rounds take_events
  jni_stop_releases n sessions t tr ready sound written e h =
      let l = loop_of sessions t in
      let at = write_pipe ∷ tr in
      let ran = round k t.args uid t.maxsessions l at in
      rw (written, stop_ends_loop k t.args uid n t.maxsessions l at ready refl e h, jni_stop)
        (stop_cases ran.0 l at ran.1 sound.1
          (round-LoopGood k w t.args uid t.maxsessions l at sound.0)
          (round-Leaves k t.args uid t.maxsessions l at ready e h))
