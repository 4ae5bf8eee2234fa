-- ===== src/Session/Watch/Loop.antt =====
-- The event loop of tun2http/session.c as a whole: no socket is watched that is no session's.
use nroxy.Prelude.{
  ℕ, zero, suc, ◌*◌, ◌≡◌, refl, ◌⊎◌, inl, inr, Bool, false, Option, none, some, List, [], ◌∷◌,
  arith, if◌then◌else◌, Bool-cases,
}
use nroxy.Prelude.Int.{ℤ}
use nroxy.Os.{Kernel, Trace, M, pure, Polled, polled, poll_failed, get_ms, time, epoll_wait}
use nroxy.Net.Session.{
  Arguments, TcpSession, NgSession, tcp_session, udp_session, icmp_session, is_over,
}
use nroxy.Tcp.Write.{write_rst}
use nroxy.Tcp.Machine.Edges.{is_shut}
use nroxy.Session.Clear.{socket_of}
use nroxy.Session.Count.{count_sessions, max_sessions}
use nroxy.Session.Pass.{monitor_sessions}
use nroxy.Session.Allowed.{end_session, check_allowed}
use nroxy.Session.Ends.{Shut}
use nroxy.Session.Round.{Loop, check_round, take_events, round, rounds, begin, handle_events}
use nroxy.Session.Watch.{watched, AllShut, IsHeld, Carries, Good}
use nroxy.Session.Watch.Tcp.{write_rst-watched}
use nroxy.Session.Watch.Events.{Carries-trans, check_events-GoodEnding}
use nroxy.Session.Watch.Rounds.{monitor_sessions-Good, check_sessions-Good}

module _ (k : Kernel) (w : ℕ) where
  -- What `check_allowed` leaves of a session.
  abbrev Ended : NgSession → Trace → Option NgSession → Trace → Type 0
  Ended s tr none tr' = (socket_of s ≡ none) × (watched w tr' ≡ watched w tr)
  Ended s tr (some s') tr' =
      Shut s' × ((socket_of s' ≡ socket_of s) × (watched w tr' ≡ watched w tr))

  write_rst-is_shut :
      (t : TcpSession) (tr : Trace)
      → (is_over t.state ≡ false) ⊎ (is_shut t.state ≡ false)
      → is_shut (write_rst k t tr).0.state ≡ false
  unfolding write_rst
  write_rst-is_shut t tr h = ground arith

  end_session-Ended :
      (s : NgSession) (tr : Trace)
      → Shut s
      → let after = end_session k s tr in Ended s tr after.0 after.1
  unfolding end_session
  end_session-Ended (icmp_session s) tr inv = (tt, (refl, refl))
  end_session-Ended (udp_session s) tr inv = ground (arith, inv)
  end_session-Ended (tcp_session s) tr inv =
      ground (arith, write_rst-watched k w s.tcp tr, write_rst-is_shut s.tcp tr, inv)

  check_allowed-Good :
      (sessions : List NgSession) (tr : Trace)
      → AllShut sessions
      → let after = check_allowed k sessions tr in Good w sessions tr (some after.0) after.1
  unfolding check_allowed
  check_allowed-Good [] tr inv = (tt, ground arith)
  check_allowed-Good (s ∷ rest) tr inv =
      let ended = end_session k s tr in
      ground (arith, end_session-Ended s tr inv.0, check_allowed-Good rest ended.1 inv.1)

  check_round-Good :
      (count maxsessions : ℕ) (recheck : Bool) (l : Loop) (tr : Trace)
      → AllShut l.sessions
      → let after = check_round k count maxsessions recheck l tr in
        Good w l.sessions tr (some after.0.0.sessions) after.1
  unfolding check_round
  check_round-Good count maxsessions recheck l tr inv = ground (
    arith,
    check_sessions-Good k w count maxsessions (k.now (get_ms ∷ tr)) l.sessions 3600
        (time ∷ get_ms ∷ tr) inv,
    inv,
  )

  -- What the loop keeps up.
  abbrev pub LoopGood : Loop → Trace → Option Loop → Trace → Type 0
  LoopGood l tr none tr' = Unit
  LoopGood l tr (some l') tr' = AllShut l'.sessions × Carries w l.sessions tr l'.sessions tr'

  LoopGood-after :
      (l l' : Loop) (tr tr' : Trace) (result : Option Loop) (tr'' : Trace)
      → Carries w l.sessions tr l'.sessions tr'
      → LoopGood l' tr' result tr''
      → LoopGood l tr result tr''
  LoopGood-after l l' tr tr' none tr'' h g = tt
  LoopGood-after l l' tr tr' (some l'') tr'' h g =
      (g.0, Carries-trans k w l.sessions l'.sessions l''.sessions tr tr' tr'' h g.1)

  module _ (args : Arguments) (uid : Trace → List ℕ → ℤ) where
    take_events-LoopGood :
        (polled : Polled) (count maxsessions : ℕ) (l : Loop) (tr : Trace)
        → AllShut l.sessions
        → let after = take_events k args uid polled count maxsessions l tr in
          LoopGood l tr after.0 after.1
    unfolding take_events
    take_events-LoopGood (poll_failed e) count maxsessions l tr inv = ground (arith, inv)
    take_events-LoopGood (polled ready) count maxsessions l tr inv =
        ground
          (arith, check_events-GoodEnding k w args uid ready count maxsessions l.sessions tr inv)

    pub round-LoopGood :
        (maxsessions : ℕ) (l : Loop) (tr : Trace)
        → AllShut l.sessions
        → let after = round k args uid maxsessions l tr in LoopGood l tr after.0 after.1
    unfolding round
    round-LoopGood maxsessions l tr inv =
        let count = count_sessions l.sessions in
        let monitored = monitor_sessions k l.sessions tr in
        let m = monitor_sessions-Good k w l.sessions tr inv in
        let l₁ = record l { sessions = monitored.0.0 } in
        let checked = check_round k count maxsessions monitored.0.1 l₁ monitored.1 in
        let c = check_round-Good count maxsessions monitored.0.1 l₁ monitored.1 m.0 in
        let l₂ = checked.0.0 in
        let wait = if checked.0.2 then 100 else checked.0.1 * 1000 in
        let tr' = epoll_wait wait ∷ checked.1 in
        LoopGood-after l l₂ tr checked.1 _ _
          (Carries-trans k w l.sessions l₁.sessions l₂.sessions tr monitored.1 checked.1 m.1 c.1)
          (take_events-LoopGood (k.polls checked.1 wait) count maxsessions l₂ tr' c.0)

    -- What `rounds` does after a round.
    abbrev go_on : ℕ → ℕ → Option Loop → M (Option Loop)
    go_on n maxsessions none = pure none
    go_on n maxsessions (some l) = rounds k args uid n maxsessions l

    go_on-LoopGood :
        (n maxsessions : ℕ) (l : Loop) (tr : Trace) (result : Option Loop) (tr' : Trace)
        → ((l' : Loop) (at : Trace)
            → AllShut l'.sessions
            → let after = rounds k args uid n maxsessions l' at in LoopGood l' at after.0 after.1)
        → LoopGood l tr result tr'
        → let after = go_on n maxsessions result tr' in LoopGood l tr after.0 after.1
    go_on-LoopGood n maxsessions l tr none tr' ih g = tt
    go_on-LoopGood n maxsessions l tr (some l') tr' ih g =
        LoopGood-after l l' tr tr' _ _ g.1 (ih l' tr' g.0)

    pub rounds-LoopGood :
        (n maxsessions : ℕ) (l : Loop) (tr : Trace)
        → AllShut l.sessions
        → let after = rounds k args uid n maxsessions l tr in LoopGood l tr after.0 after.1
    unfolding rounds
    rounds-LoopGood zero maxsessions l tr inv = (inv, ground arith)
    rounds-LoopGood (suc n) maxsessions l tr inv = elim (Bool-cases l.stopping) [
      | inl e ↦ rw (e, rounds) (inv, ground arith)
      | inr e ↦
          rw (e, rounds)
            (let result = round k args uid maxsessions l tr in
              go_on-LoopGood n maxsessions l tr result.0 result.1 (rounds-LoopGood n maxsessions)
                (round-LoopGood maxsessions l tr inv))
    ]

    pub begin-LoopGood :
        (sessions : List NgSession) (tr : Trace)
        → AllShut sessions
        → let after = begin k args uid sessions tr in
          AllShut after.0.sessions × Carries w sessions tr after.0.sessions after.1
    unfolding begin
    begin-LoopGood sessions tr inv = ground (arith, check_allowed-Good sessions tr inv)

    -- A socket is held, and the sessions are shut where they say so.
    abbrev pub Holds : Option Loop → Trace → Type 0
    Holds none tr = Unit
    Holds (some l) tr = AllShut l.sessions × IsHeld w l.sessions tr

    LoopGood-Holds :
        (l : Loop) (tr : Trace) (result : Option Loop) (tr' : Trace)
        → IsHeld w l.sessions tr
        → LoopGood l tr result tr'
        → Holds result tr'
    LoopGood-Holds l tr none tr' held g = tt
    LoopGood-Holds l tr (some l') tr' held g = (g.0, ground (arith, held, g.1))

    -- However the client, the kernel and the clock behave: where the sessions that are there at the
    -- start have no socket once they are over or blocked, and every watched socket belongs to one of
    -- them, the same is true after any number of rounds of the loop.
    pub handle_events-Holds :
        (n rlim_cur : ℕ) (sessions : List NgSession) (tr : Trace)
        → AllShut sessions
        → IsHeld w sessions tr
        → let after = handle_events k args uid n rlim_cur sessions tr in Holds after.0 after.1
    unfolding handle_events
    handle_events-Holds n rlim_cur sessions tr inv held =
        let started = begin k args uid sessions tr in
        let (shut, carried) = begin-LoopGood sessions tr inv in
        let ran = rounds k args uid n (max_sessions rlim_cur) started.0 started.1 in
        LoopGood-Holds started.0 started.1 ran.0 ran.1 (ground (arith, carried, held))
          (rounds-LoopGood n (max_sessions rlim_cur) started.0 started.1 shut)
