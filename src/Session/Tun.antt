-- ===== src/Session/Tun.antt =====
-- `check_tun` of tun2http/ip.c, and the loop of `handle_events` of tun2http/session.c around it.
use nroxy.Prelude.{
  ℕ, zero, suc, Bool, true, false, Option, none, some, List, [], ◌∷◌, if◌then◌else◌,
}
use nroxy.Prelude.Int.{ℤ}
use nroxy.Os.{
  Kernel, Trace, M, pure, ◌>>=◌, ◌>>◌, Events, Recv, received, recv_failed, ask, log_call, poll_tun,
  read_tun,
}
use nroxy.Net.Session.{Arguments, NgSession}
use nroxy.Tcp.Socket.Forward.{is_retry}
use nroxy.Handle.{handle_ip}

-- `uid` is what `get_uid` finds for a packet.
module _ (k : Kernel) (args : Arguments) (uid : Trace → List ℕ → ℤ) where
  -- What is done with the result of `read`. The flag is whether `check_tun` returns -1.
  unfoldable pub tun_packet : Recv → ℕ → ℕ → List NgSession → M (Option (List NgSession × Bool))
  tun_packet (recv_failed e) count maxsessions sessions =
      pure (some (sessions, if is_retry e then false else true))
  tun_packet (received []) count maxsessions sessions = pure (some (sessions, true))
  tun_packet (received (b ∷ pkt)) count maxsessions sessions = do
    found ← ask λ tr. uid tr (b ∷ pkt)
    result ← handle_ip k args found (b ∷ pkt) count maxsessions sessions
    elim result [ none ↦ pure none | some sessions' ↦ pure (some (sessions', false)) ]

  -- `none` is as for `handle_ip`.
  unfoldable pub check_tun : Events → ℕ → ℕ → List NgSession → M (Option (List NgSession × Bool))
  check_tun ev count maxsessions sessions =
      if ev.error
      then pure (some (sessions, true))
      else if ev.input
      then (do
        packet ← ask k.tun_read
        log_call read_tun
        tun_packet packet count maxsessions sessions)
      else pure (some (sessions, false))

  -- `while (!error && is_readable(args->tun))`, where the device is found readable `n` times.
  unfoldable pub tun_loop : ℕ → Events → ℕ → ℕ → List NgSession → M (Option (List NgSession × Bool))
  tun_loop zero ev count maxsessions sessions = log_call poll_tun >> pure (some (sessions, false))
  tun_loop (suc n) ev count maxsessions sessions = log_call poll_tun >> (do
    result ← check_tun ev count maxsessions sessions
    elim result [
      | none ↦ pure none
      | some (sessions', error) ↦ elim error [
        | true ↦ pure (some (sessions', true))
        | false ↦ tun_loop n ev count maxsessions sessions'
      ]
    ])
