-- ===== src/Session/Ends.antt =====
-- What the passes of tun2http/session.c leave of the sessions.
use nroxy.Prelude.{
  ℕ, suc, ◌≤◌, ◌<◌, ◌≡◌, refl, ◌⊎◌, inl, inr, Bool, true, false, ◌&&◌, not, Option, none, some,
  List, [], ◌∷◌, arith, if◌then◌else◌, Bool-cases, Option-cases, length,
}
use nroxy.Prelude.Int.{ℤ}
use nroxy.Os.{Kernel, Trace, close}
use nroxy.Net.Session.{
  NgSession, icmp_session, udp_session, tcp_session, TcpSession, TcpNode, UdpNode, IcmpNode,
  is_over,
}
use nroxy.Tcp.Write.{write_rst}
use nroxy.Tcp.Check.{check_tcp_session}
use nroxy.Tcp.Machine.Life.{SocketInv}
use nroxy.Udp.Check.{check_udp_session, finish_udp, is_blocked, is_closed}
use nroxy.Icmp.Check.{check_icmp_session}
use nroxy.Session.Count.{is_live, count_sessions}
use nroxy.Session.Allowed.{end_session, check_allowed}
use nroxy.Session.Clear.{socket_of, clear}
use nroxy.Session.Pass.{check_session, check_sessions, shorten, session_timeout}

-- The sockets of the sessions, the last session's first: as the trace shows their closing.
abbrev pub closings : List NgSession → Trace → Trace
closings [] tr = tr
closings (s ∷ rest) tr =
    closings rest (elim (socket_of s) [ none ↦ tr | some sock ↦ close sock ∷ tr ])

-- `clear` closes the socket of every session that has one, each once and in the order of the list,
-- calls nothing else, and leaves no session.
pub clear_lem :
    (sessions : List NgSession) (tr : Trace) → clear sessions tr ≡ ([], closings sessions tr)
unfolding clear
clear_lem [] tr = refl
clear_lem (s ∷ rest) tr = elim (Option-cases (socket_of s)) [
  | inl e ↦ rw e (clear_lem rest tr)
  | inr (sock, e) ↦ rw e (clear_lem rest (close sock ∷ tr))
]

-- What is left of a session is not live.
abbrev Dead : Option NgSession → Type 0
Dead none = Unit
Dead (some s) = is_live s ≡ false

-- A TCP session in CLOSE, FIN_WAIT1 or LAST_ACK and a UDP session that is closed or blocked have no socket. Of
-- an ICMP session nothing is asked.
abbrev pub Shut : NgSession → Type 0
Shut (tcp_session s) = SocketInv s
Shut (udp_session s) =
    ((is_closed s.udp.state ≡ false) × (is_blocked s.udp.state ≡ false)) ⊎ (s.socket ≡ none)
Shut (icmp_session s) = Unit

module _ (k : Kernel) where
  write_rst-over : (t : TcpSession) (tr : Trace) → is_over (write_rst k t tr).0.state ≡ true
  unfolding write_rst
  write_rst-over t tr = ground arith

  end_session-Dead : (s : NgSession) (tr : Trace) → Dead (end_session k s tr).0
  unfolding end_session
  end_session-Dead (icmp_session s) tr = refl
  end_session-Dead (udp_session s) tr = ground arith
  end_session-Dead (tcp_session s) tr = elim (Bool-cases (is_over s.tcp.state)) [
    | inl over ↦ rw over (rw over refl)
    | inr live ↦ rw live (rw (write_rst-over s.tcp tr) refl)
  ]

  -- After `check_allowed` no session is counted as live, whatever the sessions were, and there are no
  -- more of them than before.
  pub check_allowed-count :
      (sessions : List NgSession) (tr : Trace)
      → (count_sessions (check_allowed k sessions tr).0 ≡ 0)
        × (length (check_allowed k sessions tr).0 ≤ length sessions)
  unfolding check_allowed count_sessions
  check_allowed-count [] tr = (refl, omega arith)
  check_allowed-count (s ∷ rest) tr =
      ground (arith, end_session-Dead s tr, check_allowed-count rest (end_session k s tr).1)

  -- A session that is to be deleted has no socket left.
  abbrev Released : NgSession × Bool → Type 0
  Released (s, true) = socket_of s ≡ none
  Released (s, false) = Unit

  tcp_released :
      (s : TcpNode) (sessions maxsessions : ℕ) (tr : Trace)
      → SocketInv s
      → (check_tcp_session k s sessions maxsessions tr).0.1 ≡ true
      → (check_tcp_session k s sessions maxsessions tr).0.0.socket ≡ none
  unfolding check_tcp_session
  tcp_released s sessions maxsessions tr inv d = ground (arith, inv)

  udp_released :
      (s : UdpNode) (sessions maxsessions : ℕ) (tr : Trace)
      → Shut (udp_session s)
      → (check_udp_session k s sessions maxsessions tr).0.1 ≡ true
      → (check_udp_session k s sessions maxsessions tr).0.0.socket ≡ none
  unfolding check_udp_session finish_udp
  udp_released s sessions maxsessions tr inv d = ground (arith, inv)

  icmp_released :
      (s : IcmpNode) (sessions maxsessions : ℕ) (tr : Trace)
      → (check_icmp_session k s sessions maxsessions tr).0.1 ≡ true
      → (check_icmp_session k s sessions maxsessions tr).0.0.socket ≡ none
  unfolding check_icmp_session
  icmp_released s sessions maxsessions tr d = ground arith

  -- A session that a check deletes has no socket left, where TCP sessions in CLOSE, FIN_WAIT1 or
  -- LAST_ACK and UDP sessions that are closed or blocked have none before.
  pub check_session_releases :
      (s : NgSession) (sessions maxsessions : ℕ) (tr : Trace)
      → Shut s
      → (check_session k sessions maxsessions s tr).0.1 ≡ true
      → socket_of (check_session k sessions maxsessions s tr).0.0 ≡ none
  unfolding check_session
  check_session_releases (icmp_session s) sessions maxsessions tr inv d =
      icmp_released s sessions maxsessions tr d
  check_session_releases (udp_session s) sessions maxsessions tr inv d =
      udp_released s sessions maxsessions tr inv d
  check_session_releases (tcp_session s) sessions maxsessions tr inv d =
      tcp_released s sessions maxsessions tr inv d

  next_bounds :
      (live : Bool) (x : ℤ) (timeout : ℕ)
      → 0 < timeout
      → let next = if live then shorten x timeout else timeout in (0 < next) × (next ≤ timeout)
  next_bounds live x timeout h = ground arith

  kept_length :
      (del : Bool) (s : NgSession) (rest list : List NgSession)
      → length rest ≤ length list
      → length (if del then rest else s ∷ rest) ≤ suc (length list)
  kept_length del s rest list h = ground arith

  -- A positive time that the loop waits stays positive and does not become longer by the checks,
  -- and no session is added.
  pub check_sessions_bounds :
      (sessions maxsessions now : ℕ) (list : List NgSession) (timeout : ℕ) (tr : Trace)
      → 0 < timeout
      → let result = (check_sessions k sessions maxsessions now list timeout tr).0 in
        (0 < result.1) × ((result.1 ≤ timeout) × (length result.0 ≤ length list))
  unfolding check_sessions
  check_sessions_bounds sessions maxsessions now [] timeout tr h = (h, (omega arith, omega arith))
  check_sessions_bounds sessions maxsessions now (s ∷ rest) timeout tr h =
      let checked = check_session k sessions maxsessions s tr in
      let s' = checked.0.0 in
      let live = is_live s' && not checked.0.1 in
      let stimeout = session_timeout s' sessions maxsessions now in
      let next = if live then shorten stimeout timeout else timeout in
      let (positive, smaller) = next_bounds live stimeout timeout h in
      let rest' = check_sessions_bounds sessions maxsessions now rest next checked.1 positive in
      (rest'.0, (omega (arith, rest', smaller), kept_length checked.0.1 s' _ rest rest'.1.1))
