-- ===== src/Session/Events.antt =====
-- The events that `handle_events` of tun2http/session.c takes from one `epoll_wait`.
use nroxy.Prelude.{
  ℕ, zero, suc, Bool, true, false, ◌&&◌, not, Option, none, some, List, [], ◌∷◌, ◌==◌,
  if◌then◌else◌,
}
use nroxy.Prelude.Int.{ℤ}
use nroxy.Os.{
  Kernel, Trace, M, pure, ◌>>=◌, ◌>>◌, Events, Ready, pipe_ready, tun_ready, socket_ready, ask,
  log_call, poll, read_pipe,
}
use nroxy.Net.Session.{Arguments, NgSession, icmp_session, udp_session, tcp_session, UdpSession}
use nroxy.Tcp.Socket.{check_tcp_socket}
use nroxy.Udp.Socket.{check_udp_socket}
use nroxy.Icmp.Check.{check_icmp_socket}
use nroxy.Session.Clear.{socket_of}
use nroxy.Session.Tun.{tun_loop}

-- Whether the socket is this one.
abbrev pub is_own : ℕ → Option ℕ → Bool
is_own sock none = false
is_own sock (some own) = own == sock

abbrev pub has_socket : ℕ → NgSession → Bool
has_socket sock s = is_own sock (socket_of s)

module _ (k : Kernel) where
  -- The loop over the datagrams of a socket that is found readable `n` times.
  unfoldable pub udp_loop : ℕ → ℕ → Events → UdpSession → M (Option UdpSession)
  udp_loop zero sock ev u = log_call (poll sock) >> pure (some u)
  udp_loop (suc n) sock ev u = log_call (poll sock) >> (do
    result ← check_udp_socket k sock ev u
    elim result [ none ↦ pure none | some u' ↦ udp_loop n sock ev u' ])

  -- Check downstream: the event of a session, by its protocol.
  unfoldable pub check_socket : ℕ → Events → NgSession → M (Option NgSession)
  check_socket sock ev (icmp_session s) = do
    cur ← check_icmp_socket k sock ev s.icmp
    pure (some (icmp_session (record s { icmp = cur })))
  check_socket sock ev (udp_session s) =
      if not ev.error && ev.input
      then (do
        n ← ask λ tr. k.waiting tr sock
        result ← udp_loop n sock ev s.udp
        elim result [
          | none ↦ pure none
          | some u ↦ pure (some (udp_session (record s { udp = u })))
        ])
      else pure (some (udp_session s))
  check_socket sock ev (tcp_session s) = do
    s' ← check_tcp_socket k sock ev s
    pure (some (tcp_session s'))

  -- The event's session is the one with the socket. Where there is none the code would use a session
  -- that it has freed: the result is `none`.
  unfoldable pub check_downstream : ℕ → Events → List NgSession → M (Option (List NgSession))
  check_downstream sock ev [] = pure none
  check_downstream sock ev (s ∷ rest) =
      if has_socket sock s
      then (do
        result ← check_socket sock ev s
        elim result [ none ↦ pure none | some s' ↦ pure (some (s' ∷ rest)) ])
      else (do
        result ← check_downstream sock ev rest
        elim result [ none ↦ pure none | some rest' ↦ pure (some (s ∷ rest')) ])

-- How the events of one round end: nothing special, an error of the tun device, or a stop.
pub data Ending : Type 0 where
  proceeds errs stops : Ending

module _ (k : Kernel) (args : Arguments) (uid : Trace → List ℕ → ℤ) where
  -- `none` is a use of a freed session, or as for `handle_ip` and `check_udp_socket`.
  unfoldable pub check_events :
      List Ready → ℕ → ℕ → List NgSession → M (Option (List NgSession × Ending))
  check_events [] count maxsessions sessions = pure (some (sessions, proceeds))
  check_events (pipe_ready ∷ rest) count maxsessions sessions =
      log_call read_pipe >> pure (some (sessions, stops))
  check_events (tun_ready ev ∷ rest) count maxsessions sessions = do
    n ← ask k.tun_waiting
    result ← tun_loop k args uid n ev count maxsessions sessions
    elim result [
      | none ↦ pure none
      | some (sessions', error) ↦ elim error [
        | true ↦ pure (some (sessions', errs))
        | false ↦ check_events rest count maxsessions sessions'
      ]
    ]
  check_events (socket_ready sock ev ∷ rest) count maxsessions sessions = do
    result ← check_downstream k sock ev sessions
    elim result [
      | none ↦ pure none
      | some sessions' ↦ check_events rest count maxsessions sessions'
    ]
