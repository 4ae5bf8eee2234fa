-- ===== src/Udp/Socket.antt =====
-- `check_udp_socket` of tun2http/udp.c: what a session does at an event of its socket.
use nroxy.Prelude.{
  ℕ, ◌+◌, ◌||◌, not, Option, none, some, List, [], ◌∷◌, ◌==◌, if◌then◌else◌, length,
}
use nroxy.Os.{
  Kernel, M, pure, ◌>>=◌, ◌>>◌, Events, get_time, log_call, get_error, socket_recv, received,
  recv_failed,
}
use nroxy.Net.Session.{finishing, UdpSession}
use nroxy.Tcp.Socket.Forward.{is_retry}
use nroxy.Dns.{parse_dns_response}
use nroxy.Udp.Packet.{write_udp}

module _ (k : Kernel) where
  -- Data from the socket goes to the client; an answer of the name server ends the session.
  unfoldable pub udp_received : List ℕ → UdpSession → M (Option UdpSession)
  unfolding write_udp
  udp_received bytes u =
      let u' = record u { received = u.received + length bytes } in
      elim (if u.dest == 53 then parse_dns_response bytes else some none) [
        | none ↦ pure none
        | some _ ↦ (do
          written ← write_udp k u' bytes
          pure (some (if not written || u.dest == 53 then record u' { state = finishing } else u')))
      ]

  -- `none` is a DNS answer whose reading does not end.
  unfoldable pub check_udp_socket : ℕ → Events → UdpSession → M (Option UdpSession)
  unfolding udp_received
  check_udp_socket sock ev u =
      if ev.error
      then (do
        now ← get_time k
        log_call (get_error sock)
        pure (some (record u { time = now; state = finishing })))
      else if ev.input
      then (do
        now ← get_time k
        let u' = record u { time = now }
        result ← socket_recv k sock u.mss
        elim result [
          | recv_failed e ↦ pure (some (if is_retry e then u' else record u' { state = finishing }))
          | received [] ↦ pure (some (record u' { state = finishing }))
          | received (b ∷ bytes) ↦ udp_received (b ∷ bytes) u'
        ])
      else pure (some u)
