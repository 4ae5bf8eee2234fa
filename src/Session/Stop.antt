-- ===== src/Session/Stop.antt =====
-- How the event loop of tun2http/session.c ends.
use nroxy.Prelude.{
  ℕ, zero, suc, ◌*◌, ◌≡◌, refl, Bool, true, false, Option, none, some, List, [], ◌∷◌, arith,
  if◌then◌else◌,
}
use nroxy.Prelude.Int.{ℤ}
use nroxy.Os.{Kernel, Trace, M, pure, Ready, pipe_ready, tun_ready, socket_ready, Polled, polled}
use nroxy.Net.Session.{Arguments, NgSession}
use nroxy.Session.Count.{count_sessions}
use nroxy.Session.Pass.{monitor_sessions}
use nroxy.Session.Events.{Ending, check_events}
use nroxy.Session.Round.{Loop, check_round, take_events, round, rounds, is_proceeds}

abbrev pub has_pipe : List Ready → Bool
has_pipe [] = false
has_pipe (pipe_ready ∷ rest) = true
has_pipe (_ ∷ rest) = has_pipe rest

-- No more rounds follow.
abbrev pub Leaves : Option Loop → Type 0
Leaves none = Unit
Leaves (some l) = l.stopping ≡ true

module _ (k : Kernel) (args : Arguments) (uid : Trace → List ℕ → ℤ) where
  -- What `epoll_wait` reports in a round.
  abbrev pub reported : ℕ → Loop → Trace → Polled
  reported maxsessions l tr =
      let (monitored, recheck) = (monitor_sessions k l.sessions tr).0 in
      let after = (monitor_sessions k l.sessions tr).1 in
      let checked =
        check_round k (count_sessions l.sessions) maxsessions recheck
          (record l { sessions = monitored }) after in
      k.polls checked.1 (if checked.0.2 then 100 else checked.0.1 * 1000)

  abbrev Halts : Option (List NgSession × Ending) → Type 0
  Halts none = Unit
  Halts (some (sessions, ending)) = is_proceeds ending ≡ false

  check_events-Halts :
      (ready : List Ready) (count maxsessions : ℕ) (sessions : List NgSession) (tr : Trace)
      → has_pipe ready ≡ true
      → Halts (check_events k args uid ready count maxsessions sessions tr).0
  unfolding check_events
  check_events-Halts [] count maxsessions sessions tr h = ground arith
  check_events-Halts (pipe_ready ∷ rest) count maxsessions sessions tr h = refl
  check_events-Halts (tun_ready ev ∷ rest) count maxsessions sessions tr h =
      grind (arith, check_events-Halts rest count maxsessions)
  check_events-Halts (socket_ready sock ev ∷ rest) count maxsessions sessions tr h =
      grind (arith, check_events-Halts rest count maxsessions)

  take_events-Leaves :
      (r : Polled) (ready : List Ready) (count maxsessions : ℕ) (l : Loop) (tr : Trace)
      → r ≡ polled ready
      → has_pipe ready ≡ true
      → Leaves (take_events k args uid r count maxsessions l tr).0
  unfolding take_events
  take_events-Leaves r ready count maxsessions l tr e h =
      rw e (ground (arith, check_events-Halts ready count maxsessions l.sessions tr h))

  pub round-Leaves :
      (maxsessions : ℕ) (l : Loop) (tr : Trace) (ready : List Ready)
      → reported maxsessions l tr ≡ polled ready
      → has_pipe ready ≡ true
      → Leaves (round k args uid maxsessions l tr).0
  unfolding round
  round-Leaves maxsessions l tr ready e h = take_events-Leaves _ ready _ maxsessions _ _ e h

  -- What `rounds` does after a round.
  abbrev go_on : ℕ → ℕ → Option Loop → M (Option Loop)
  go_on n maxsessions none = pure none
  go_on n maxsessions (some l) = rounds k args uid n maxsessions l

  go_on_ends :
      (n maxsessions : ℕ) (result : Option Loop) (tr : Trace)
      → Leaves result
      → go_on n maxsessions result tr ≡ (result, tr)
  unfolding rounds
  go_on_ends n maxsessions none tr h = refl
  go_on_ends zero maxsessions (some l) tr h = refl
  go_on_ends (suc n) maxsessions (some l) tr h = simp (h, rounds)

  -- Where `epoll_wait` reports the stop pipe in a round, whatever else it reports and whatever the
  -- handlers do, that round is the last: the loop ends as it leaves it, and makes no further call.
  pub stop_ends_loop :
      (n maxsessions : ℕ) (l : Loop) (tr : Trace) (ready : List Ready)
      → l.stopping ≡ false
      → reported maxsessions l tr ≡ polled ready
      → has_pipe ready ≡ true
      → rounds k args uid (suc n) maxsessions l tr ≡ round k args uid maxsessions l tr
  unfolding rounds
  stop_ends_loop n maxsessions l tr ready s e h =
      let result = round k args uid maxsessions l tr in
      simp (s, rounds)
        (go_on_ends n maxsessions result.0 result.1 (round-Leaves maxsessions l tr ready e h))
