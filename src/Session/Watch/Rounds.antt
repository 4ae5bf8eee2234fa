-- ===== src/Session/Watch/Rounds.antt =====
-- The sessions and the watched sockets through the rounds of the event loop in tun2http/session.c.
use nroxy.Prelude.{
  ℕ, ◌≡◌, inl, inr, ◌&&◌, not, some, List, [], ◌∷◌, arith, if◌then◌else◌, Option-cases,
}
use nroxy.Os.{Kernel, Trace}
use nroxy.Net.Session.{TcpNode, NgSession, tcp_session, udp_session, icmp_session}
use nroxy.Tcp.Monitor.{monitor_tcp_session}
use nroxy.Tcp.Machine.Life.{Step-SocketInv, check_tcp_session-SocketInv, monitor}
use nroxy.Udp.Life.{check_udp_session-keeps}
use nroxy.Session.Clear.{socket_of}
use nroxy.Session.Count.{is_live}
use nroxy.Session.Pass.{monitor_sessions, check_session, check_sessions, shorten, session_timeout}
use nroxy.Session.Ends.{Shut, check_session_releases}
use nroxy.Session.Watch.{AllShut, Keeps, Good}
use nroxy.Session.Watch.Tcp.{check_tcp_session-Keeps, monitor_tcp_session-watched}
use nroxy.Session.Watch.Others.{check_udp_session-Keeps, check_icmp_session-Keeps}

module _ (k : Kernel) (w : ℕ) where
  monitor_tcp_session-socket :
      (sock : ℕ) (s : TcpNode) (tr : Trace)
      → (monitor_tcp_session k sock s tr).0.0.socket ≡ s.socket
  unfolding monitor_tcp_session
  monitor_tcp_session-socket sock s tr = ground arith

  pub monitor_sessions-Good :
      (sessions : List NgSession) (tr : Trace)
      → AllShut sessions
      → let after = monitor_sessions k sessions tr in Good w sessions tr (some after.0.0) after.1
  unfolding monitor_sessions
  monitor_sessions-Good [] tr inv = (tt, ground arith)
  monitor_sessions-Good (icmp_session s ∷ rest) tr inv =
      ground (arith, monitor_sessions-Good rest tr inv.1, inv)
  monitor_sessions-Good (udp_session s ∷ rest) tr inv =
      ground (arith, monitor_sessions-Good rest tr inv.1, inv)
  monitor_sessions-Good (tcp_session s ∷ rest) tr inv = elim (Option-cases s.socket) [
    | inl e ↦ rw (e, monitor_sessions) (ground (arith, monitor_sessions-Good rest tr inv.1, inv))
    | inr (sock, e) ↦
        let done = monitor_tcp_session k sock s tr in
        ground (
          arith,
          monitor_tcp_session-socket sock s tr,
          monitor_tcp_session-watched k w sock s tr,
          Step-SocketInv k {s = s} {tr = tr} (monitor sock e) inv.0,
          monitor_sessions-Good rest done.1 inv.1,
          inv,
        )
  ]

  -- What the check of a session does: its socket and its state.
  check_session-Keeps :
      (s : NgSession) (sessions maxsessions : ℕ) (tr : Trace)
      → Shut s
      → let after = check_session k sessions maxsessions s tr in
        Shut after.0.0 × Keeps w (socket_of s) tr (socket_of after.0.0) after.1
  unfolding check_session
  check_session-Keeps (icmp_session s) sessions maxsessions tr inv =
      (tt, check_icmp_session-Keeps k w s sessions maxsessions tr)
  check_session-Keeps (udp_session s) sessions maxsessions tr inv = (
    (check_udp_session-keeps k s sessions maxsessions tr inv).0,
    check_udp_session-Keeps k w s sessions maxsessions tr,
  )
  check_session-Keeps (tcp_session s) sessions maxsessions tr inv = (
    check_tcp_session-SocketInv k s sessions maxsessions tr inv,
    check_tcp_session-Keeps k w s sessions maxsessions tr,
  )

  pub check_sessions-Good :
      (count maxsessions now : ℕ) (sessions : List NgSession) (timeout : ℕ) (tr : Trace)
      → AllShut sessions
      → let after = check_sessions k count maxsessions now sessions timeout tr in
        Good w sessions tr (some after.0.0) after.1
  unfolding check_sessions
  check_sessions-Good count maxsessions now [] timeout tr inv = (tt, ground arith)
  check_sessions-Good count maxsessions now (s ∷ rest) timeout tr inv =
      let checked = check_session k count maxsessions s tr in
      let s' = checked.0.0 in
      let next =
        if is_live s' && not checked.0.1
        then shorten (session_timeout s' count maxsessions now) timeout
        else timeout in
      ground (
        arith,
        check_session-Keeps s count maxsessions tr inv.0,
        check_session_releases k s count maxsessions tr inv.0,
        check_sessions-Good count maxsessions now rest next checked.1 inv.1,
      )
