-- ===== src/Session/Watch/Events.antt =====
-- The sessions and the watched sockets after the events of one round, in tun2http/session.c.
use nroxy.Prelude.{ℕ, zero, suc, Bool, true, false, Option, none, some, List, [], ◌∷◌, arith}
use nroxy.Prelude.Int.{ℤ}
use nroxy.Os.{
  Kernel, Trace, M, pure, Events, Ready, pipe_ready, tun_ready, socket_ready, Recv, received,
  recv_failed, poll_tun, read_tun,
}
use nroxy.Net.Session.{Arguments, NgSession}
use nroxy.Session.Tun.{tun_packet, check_tun, tun_loop}
use nroxy.Session.Events.{check_downstream, Ending, errs, check_events}
use nroxy.Session.Watch.{AllShut, Carries, Good, GoodFlag}
use nroxy.Session.Watch.Sockets.{check_downstream-Good}
use nroxy.Session.Watch.Dispatch.{handle_ip-Good}

module _ (k : Kernel) (w : ℕ) where
  -- Two operations one after the other.
  pub Carries-trans :
      (a b c : List NgSession) (tr tr' tr'' : Trace)
      → Carries w a tr b tr'
      → Carries w b tr' c tr''
      → Carries w a tr c tr''
  Carries-trans a b c tr tr' tr'' h h' = ground arith

  GoodFlag-trans :
      (a b : List NgSession) (tr tr' : Trace) (result : Option (List NgSession × Bool))
      (tr'' : Trace)
      → Carries w a tr b tr'
      → GoodFlag w b tr' result tr''
      → GoodFlag w a tr result tr''
  GoodFlag-trans a b tr tr' none tr'' h g = tt
  GoodFlag-trans a b tr tr' (some (c, flag)) tr'' h g = (g.0, Carries-trans a b c tr tr' tr'' h g.1)

  module _ (args : Arguments) (uid : Trace → List ℕ → ℤ) where
    tun_packet-GoodFlag :
        (r : Recv) (count maxsessions : ℕ) (sessions : List NgSession) (tr : Trace)
        → AllShut sessions
        → let after = tun_packet k args uid r count maxsessions sessions tr in
          GoodFlag w sessions tr after.0 after.1
    unfolding tun_packet
    tun_packet-GoodFlag (recv_failed e) count maxsessions sessions tr inv = (inv, ground arith)
    tun_packet-GoodFlag (received []) count maxsessions sessions tr inv = (inv, ground arith)
    tun_packet-GoodFlag (received (b ∷ pkt)) count maxsessions sessions tr inv = ground (
      arith,
      handle_ip-Good k w args (uid tr (b ∷ pkt)) (b ∷ pkt) sessions tr inv count maxsessions,
    )

    check_tun-GoodFlag :
        (ev : Events) (count maxsessions : ℕ) (sessions : List NgSession) (tr : Trace)
        → AllShut sessions
        → let after = check_tun k args uid ev count maxsessions sessions tr in
          GoodFlag w sessions tr after.0 after.1
    unfolding check_tun
    check_tun-GoodFlag ev count maxsessions sessions tr inv = ground (
      arith,
      tun_packet-GoodFlag (k.tun_read tr) count maxsessions sessions (read_tun ∷ tr) inv,
      inv,
    )

    -- What `tun_loop` does after one call of `check_tun`.
    abbrev next_packet :
        ℕ → Events → ℕ → ℕ → Option (List NgSession × Bool) → M (Option (List NgSession × Bool))
    next_packet n ev count maxsessions none = pure none
    next_packet n ev count maxsessions (some (after, true)) = pure (some (after, true))
    next_packet n ev count maxsessions (some (after, false)) =
        tun_loop k args uid n ev count maxsessions after

    next_packet-GoodFlag :
        (n : ℕ) (ev : Events) (count maxsessions : ℕ) (sessions : List NgSession) (tr : Trace)
        (result : Option (List NgSession × Bool)) (tr' : Trace)
        → ((later : List NgSession) (at : Trace)
            → AllShut later
            → let after = tun_loop k args uid n ev count maxsessions later at in
              GoodFlag w later at after.0 after.1)
        → GoodFlag w sessions tr result tr'
        → let after = next_packet n ev count maxsessions result tr' in
          GoodFlag w sessions tr after.0 after.1
    next_packet-GoodFlag n ev count maxsessions sessions tr none tr' ih g = tt
    next_packet-GoodFlag n ev count maxsessions sessions tr (some (mid, true)) tr' ih g = g
    next_packet-GoodFlag n ev count maxsessions sessions tr (some (mid, false)) tr' ih g =
        GoodFlag-trans sessions mid tr tr' _ _ g.1 (ih mid tr' g.0)

    tun_loop-GoodFlag :
        (n : ℕ) (ev : Events) (count maxsessions : ℕ) (sessions : List NgSession) (tr : Trace)
        → AllShut sessions
        → let after = tun_loop k args uid n ev count maxsessions sessions tr in
          GoodFlag w sessions tr after.0 after.1
    unfolding tun_loop
    tun_loop-GoodFlag zero ev count maxsessions sessions tr inv = (inv, ground arith)
    tun_loop-GoodFlag (suc n) ev count maxsessions sessions tr inv =
        let result = check_tun k args uid ev count maxsessions sessions (poll_tun ∷ tr) in
        next_packet-GoodFlag n ev count maxsessions sessions tr result.0 result.1
          (tun_loop-GoodFlag n ev count maxsessions)
          (check_tun-GoodFlag ev count maxsessions sessions (poll_tun ∷ tr) inv)

    -- As `GoodFlag`, of the result of `check_events`.
    abbrev pub GoodEnding :
        List NgSession → Trace → Option (List NgSession × Ending) → Trace → Type 0
    GoodEnding sessions tr none tr' = Unit
    GoodEnding sessions tr (some (after, ending)) tr' =
        AllShut after × Carries w sessions tr after tr'

    GoodEnding-trans :
        (a b : List NgSession) (tr tr' : Trace) (result : Option (List NgSession × Ending))
        (tr'' : Trace)
        → Carries w a tr b tr'
        → GoodEnding b tr' result tr''
        → GoodEnding a tr result tr''
    GoodEnding-trans a b tr tr' none tr'' h g = tt
    GoodEnding-trans a b tr tr' (some (c, ending)) tr'' h g =
        (g.0, Carries-trans a b c tr tr' tr'' h g.1)

    -- What follows the events of the tun device, and those of a socket.
    abbrev after_tun :
        List Ready → ℕ → ℕ → Option (List NgSession × Bool) → M (Option (List NgSession × Ending))
    after_tun rest count maxsessions none = pure none
    after_tun rest count maxsessions (some (after, true)) = pure (some (after, errs))
    after_tun rest count maxsessions (some (after, false)) =
        check_events k args uid rest count maxsessions after

    abbrev after_socket :
        List Ready → ℕ → ℕ → Option (List NgSession) → M (Option (List NgSession × Ending))
    after_socket rest count maxsessions none = pure none
    after_socket rest count maxsessions (some after) =
        check_events k args uid rest count maxsessions after

    module _ (rest : List Ready) (count maxsessions : ℕ)
        (ih : (later : List NgSession) (at : Trace)
          → AllShut later
          → let after = check_events k args uid rest count maxsessions later at in
            GoodEnding later at after.0 after.1) where
      after_tun-GoodEnding :
          (sessions : List NgSession) (tr : Trace) (result : Option (List NgSession × Bool))
          (tr' : Trace)
          → GoodFlag w sessions tr result tr'
          → let after = after_tun rest count maxsessions result tr' in
            GoodEnding sessions tr after.0 after.1
      after_tun-GoodEnding sessions tr none tr' g = tt
      after_tun-GoodEnding sessions tr (some (mid, true)) tr' g = g
      after_tun-GoodEnding sessions tr (some (mid, false)) tr' g =
          GoodEnding-trans sessions mid tr tr' _ _ g.1 (ih mid tr' g.0)

      after_socket-GoodEnding :
          (sessions : List NgSession) (tr : Trace) (result : Option (List NgSession)) (tr' : Trace)
          → Good w sessions tr result tr'
          → let after = after_socket rest count maxsessions result tr' in
            GoodEnding sessions tr after.0 after.1
      after_socket-GoodEnding sessions tr none tr' g = tt
      after_socket-GoodEnding sessions tr (some mid) tr' g =
          GoodEnding-trans sessions mid tr tr' _ _ g.1 (ih mid tr' g.0)

    pub check_events-GoodEnding :
        (ready : List Ready) (count maxsessions : ℕ) (sessions : List NgSession) (tr : Trace)
        → AllShut sessions
        → let after = check_events k args uid ready count maxsessions sessions tr in
          GoodEnding sessions tr after.0 after.1
    unfolding check_events
    check_events-GoodEnding [] count maxsessions sessions tr inv = (inv, ground arith)
    check_events-GoodEnding (pipe_ready ∷ rest) count maxsessions sessions tr inv =
        (inv, ground arith)
    check_events-GoodEnding (tun_ready ev ∷ rest) count maxsessions sessions tr inv =
        let n = k.tun_waiting tr in
        let result = tun_loop k args uid n ev count maxsessions sessions tr in
        after_tun-GoodEnding rest count maxsessions (check_events-GoodEnding rest count maxsessions)
          sessions tr result.0 result.1 (tun_loop-GoodFlag n ev count maxsessions sessions tr inv)
    check_events-GoodEnding (socket_ready sock ev ∷ rest) count maxsessions sessions tr inv =
        let result = check_downstream k sock ev sessions tr in
        after_socket-GoodEnding rest count maxsessions
          (check_events-GoodEnding rest count maxsessions) sessions tr result.0 result.1
          (check_downstream-Good k w sock ev sessions tr inv)
