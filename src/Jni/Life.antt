-- ===== src/Jni/Life.antt =====
-- The sessions and the watched sockets through the life of the relay, in tun2http/tun2http.c.
use nroxy.Prelude.{
  ℕ, ◌≡◌, ap, inl, inr, true, false, Option, none, some, List, [], ◌∷◌, arith, if◌then◌else◌,
  Bool-cases,
}
use nroxy.Prelude.Int.{ℤ}
use nroxy.Os.{
  Kernel, Trace, M, pure, ◌>>=◌, ◌>>◌, log_call, close, create_thread, join_thread, write_pipe,
  close_epoll,
}
use nroxy.Net.Session.{Arguments, NgSession}
use nroxy.Session.Clear.{clear, socket_of}
use nroxy.Session.Count.{max_sessions}
use nroxy.Session.Ends.{closings, clear_lem}
use nroxy.Session.Round.{Loop, round, rounds, begin}
use nroxy.Session.Watch.{watched, AllShut, IsHeld, Carries}
use nroxy.Session.Watch.Loop.{LoopGood, round-LoopGood, rounds-LoopGood, begin-LoopGood}
use nroxy.Jni.{Thread, Service, loop_of, after_loop, jni_start, thread_round, jni_stop, jni_done}

-- The trace after one session is cleared.
abbrev closing : NgSession → Trace → Trace
closing s tr = elim (socket_of s) [ none ↦ tr | some sock ↦ close sock ∷ tr ]

closing-watched :
    (w : ℕ) (s : NgSession) (rest : List NgSession) (tr : Trace)
    → IsHeld w (s ∷ rest) tr
    → IsHeld w rest (closing s tr)
closing-watched w s rest tr h = ground (arith, h)

closings-watched :
    (w : ℕ) (sessions : List NgSession) (tr : Trace)
    → IsHeld w sessions tr
    → watched w (closings sessions tr) ≡ false
closings-watched w [] tr h = ground (arith, h)
closings-watched w (s ∷ rest) tr h =
    closings-watched w rest (closing s tr) (closing-watched w s rest tr h)

pub clear-watched :
    (w : ℕ) (sessions : List NgSession) (tr : Trace)
    → IsHeld w sessions tr
    → ((clear sessions tr).0 ≡ []) × (watched w (clear sessions tr).1 ≡ false)
clear-watched w sessions tr h =
    let e = clear_lem sessions tr in (ap (λ p. p.0) e, rw e (closings-watched w sessions tr h))

module _ (k : Kernel) (uid : Trace → List ℕ → ℤ) where
  -- What may happen to the relay: a call of the service, or a round of the thread.
  pub data Step (s : Service) (tr : Trace) : Service → Trace → Type 0 where
    start :
        (args : Arguments) → Step s tr (jni_start k uid args s tr).0 (jni_start k uid args s tr).1
    turn :
        (s' : Service)
        → (thread_round k uid s tr).0 ≡ some s'
        → Step s tr s' (thread_round k uid s tr).1
    stop :
        (n : ℕ) (s' : Service)
        → (jni_stop k uid n s tr).0 ≡ some s'
        → Step s tr s' (jni_stop k uid n s tr).1
    done : Step s tr (jni_done k uid s tr).0 (jni_done k uid s tr).1

  pub data Reach (s : Service) (tr : Trace) : Service → Trace → Type 0 where
    here : Reach s tr s tr
    next :
        {t u : Service} {trₜ trᵤ : Trace} → Reach s tr t trₜ → Step t trₜ u trᵤ → Reach s tr u trᵤ

  module _ (w : ℕ) where
    abbrev pub Sound : Service → Trace → Type 0
    Sound s tr = AllShut s.sessions × IsHeld w s.sessions tr

    abbrev pub Sounds : Option Service → Trace → Type 0
    Sounds none tr = Unit
    Sounds (some s) tr = Sound s tr

    after_loop-Sound :
        (t : Thread) (l : Loop) (tr : Trace)
        → AllShut l.sessions
        → IsHeld w l.sessions tr
        → let after = after_loop k uid t l tr in Sound after.0 after.1
    unfolding after_loop
    after_loop-Sound t l tr inv held = ground (arith, inv, held)

    pub carried :
        (sessions after : List NgSession) (tr tr' : Trace)
        → IsHeld w sessions tr
        → Carries w sessions tr after tr'
        → IsHeld w after tr'
    carried sessions after tr tr' held c = ground (arith, held, c)

    pub start-Sound :
        (args : Arguments) (sessions : List NgSession) (thread : Option Thread) (tr : Trace)
        → AllShut sessions
        → IsHeld w sessions tr
        → let after = jni_start k uid args (record { sessions = sessions; thread = thread }) tr in
          Sound after.0 after.1
    unfolding jni_start
    start-Sound args sessions (some t) tr inv held = (inv, held)
    start-Sound args sessions none tr inv held =
        let at = create_thread ∷ tr in
        let begun = begin k args uid sessions at in
        let t : Thread = record {
          args = args;
          maxsessions = max_sessions (k.file_limit at);
          last_check = begun.0.last_check;
        } in
        let good = begin-LoopGood k w args uid sessions at inv in
        let held' = carried sessions begun.0.sessions at begun.1 held good.1 in
        ground (arith, after_loop-Sound t begun.0 begun.1 good.0 held', inv, held)

    -- What `thread_round` does with the result of the round.
    abbrev after_round : Thread → Option Loop → M (Option Service)
    after_round t none = pure none
    after_round t (some l) = do s' ← after_loop k uid t l; pure (some s')

    after_round-Sounds :
        (t : Thread) (l : Loop) (tr : Trace) (result : Option Loop) (tr' : Trace)
        → IsHeld w l.sessions tr
        → LoopGood k w l tr result tr'
        → let after = after_round t result tr' in Sounds after.0 after.1
    after_round-Sounds t l tr none tr' held g = tt
    after_round-Sounds t l tr (some l') tr' held g =
        after_loop-Sound t l' tr' g.0 (carried l.sessions l'.sessions tr tr' held g.1)

    pub round-Sounds :
        (sessions : List NgSession) (thread : Option Thread) (tr : Trace)
        → AllShut sessions
        → IsHeld w sessions tr
        → let after = thread_round k uid (record { sessions = sessions; thread = thread }) tr in
          Sounds after.0 after.1
    unfolding thread_round
    round-Sounds sessions none tr inv held = (inv, held)
    round-Sounds sessions (some t) tr inv held =
        let l = loop_of sessions t in
        let ran = round k t.args uid t.maxsessions l tr in
        after_round-Sounds t l tr ran.0 ran.1 held
          (round-LoopGood k w t.args uid t.maxsessions l tr inv)

    -- What `jni_stop` does once the thread was to end.
    abbrev pub after_stop : Option Loop → M (Option Service)
    after_stop none = pure none
    after_stop (some l) =
        if l.stopping
        then (do
          log_call close_epoll
          log_call join_thread
          cleared ← clear l.sessions
          pure (some (record { sessions = cleared; thread = none })))
        else pure none

    -- Nothing runs, there is no session, and the socket is not watched.
    abbrev pub Stopped : Option Service → Trace → Type 0
    Stopped none tr = Unit
    Stopped (some s) tr = (s.sessions ≡ []) × ((s.thread ≡ none) × (watched w tr ≡ false))

    pub after_stop-Stopped :
        (l : Loop) (tr : Trace) (result : Option Loop) (tr' : Trace)
        → IsHeld w l.sessions tr
        → LoopGood k w l tr result tr'
        → let after = after_stop result tr' in Stopped after.0 after.1
    after_stop-Stopped l tr none tr' held g = tt
    after_stop-Stopped l tr (some l') tr' held g =
        let held' = carried l.sessions l'.sessions tr tr' held g.1 in
        ground (arith, clear-watched w l'.sessions (join_thread ∷ close_epoll ∷ tr') held')

    stop-Stopped :
        (n : ℕ) (sessions : List NgSession) (t : Thread) (tr : Trace)
        → AllShut sessions
        → IsHeld w sessions tr
        → k.writes_pipe tr ≡ true
        → let s : Service = record { sessions = sessions; thread = some t } in
          let after = jni_stop k uid n s tr in Stopped after.0 after.1
    unfolding jni_stop
    stop-Stopped n sessions t tr inv held written =
        let l = loop_of sessions t in
        let ran = rounds k t.args uid n t.maxsessions l (write_pipe ∷ tr) in
        rw (written, jni_stop)
          (after_stop-Stopped l tr ran.0 ran.1 held
            (rounds-LoopGood k w t.args uid n t.maxsessions l (write_pipe ∷ tr) inv))

    Stopped-Sounds : (result : Option Service) (tr : Trace) → Stopped result tr → Sounds result tr
    Stopped-Sounds none tr h = tt
    Stopped-Sounds (some s) tr h = ground (arith, h)

    pub stop-Sounds :
        (n : ℕ) (sessions : List NgSession) (thread : Option Thread) (tr : Trace)
        → AllShut sessions
        → IsHeld w sessions tr
        → let after = jni_stop k uid n (record { sessions = sessions; thread = thread }) tr in
          Sounds after.0 after.1
    unfolding jni_stop
    stop-Sounds n sessions none tr inv held = (inv, held)
    stop-Sounds n sessions (some t) tr inv held = elim (Bool-cases (k.writes_pipe tr)) [
      | inl e ↦ Stopped-Sounds _ _ (stop-Stopped n sessions t tr inv held e)
      | inr e ↦ rw (e, jni_stop) (ground (arith, clear-watched w sessions (write_pipe ∷ tr) held))
    ]

    pub jni_done-Sound :
        (s : Service) (tr : Trace)
        → Sound s tr
        → let after = jni_done k uid s tr in Sound after.0 after.1
    unfolding jni_done
    jni_done-Sound s tr h = ground (arith, clear-watched w s.sessions tr h.1)
