-- ===== src/Session/Watch/Sockets.antt =====
-- The sessions and the watched sockets after an event of a socket, in tun2http/session.c.
use nroxy.Prelude.{
  ℕ, zero, suc, ◌≡◌, refl, inl, inr, true, false, Option, none, some, List, [], ◌∷◌, arith,
  Bool-cases,
}
use nroxy.Os.{Kernel, Trace, Events, poll}
use nroxy.Net.Session.{UdpSession, UdpNode, NgSession, tcp_session, udp_session, icmp_session}
use nroxy.Tcp.Machine.Life.{Step-SocketInv, event}
use nroxy.Udp.Check.{is_closed, is_blocked}
use nroxy.Udp.Socket.{check_udp_socket}
use nroxy.Udp.Life.{EventKeeps, check_udp_socket-EventKeeps}
use nroxy.Session.Clear.{socket_of}
use nroxy.Session.Ends.{Shut}
use nroxy.Session.Events.{has_socket, udp_loop, check_socket, check_downstream}
use nroxy.Session.Watch.{AllShut, Keeps, Good}
use nroxy.Session.Watch.Tcp.{check_tcp_socket-Keeps}
use nroxy.Session.Watch.Others.{go_on, udp_loop-watched, check_icmp_socket-watched}

module _ (k : Kernel) (w : ℕ) where
  abbrev LoopKeeps : UdpSession → Option UdpSession → Type 0
  LoopKeeps u none = Unit
  LoopKeeps u (some v) =
      (is_closed v.state ≡ is_closed u.state) × (is_blocked v.state ≡ is_blocked u.state)

  go_on-LoopKeeps :
      (n sock : ℕ) (ev : Events) (u : UdpSession)
      → ((v : UdpSession) (tr : Trace)
          → is_closed v.state ≡ false
          → is_blocked v.state ≡ false
          → LoopKeeps v (udp_loop k n sock ev v tr).0)
      → (result : Option UdpSession) (tr : Trace) → is_closed u.state ≡ false
      → is_blocked u.state ≡ false
      → EventKeeps k u result
      → LoopKeeps u (go_on k w n sock ev result tr).0
  go_on-LoopKeeps n sock ev u ih none tr c b e = tt
  go_on-LoopKeeps n sock ev u ih (some v) tr c b e = ground (arith, ih v tr, e)

  udp_loop-LoopKeeps :
      (n sock : ℕ) (ev : Events) (u : UdpSession) (tr : Trace)
      → is_closed u.state ≡ false
      → is_blocked u.state ≡ false
      → LoopKeeps u (udp_loop k n sock ev u tr).0
  unfolding udp_loop
  udp_loop-LoopKeeps zero sock ev u tr c b = (refl, refl)
  udp_loop-LoopKeeps (suc n) sock ev u tr c b =
      let result = check_udp_socket k sock ev u (poll sock ∷ tr) in
      go_on-LoopKeeps n sock ev u (udp_loop-LoopKeeps n sock ev) result.0 result.1 c b
        (check_udp_socket-EventKeeps k sock ev u (poll sock ∷ tr))

  -- What an event does to its session.
  abbrev Served : NgSession → Trace → Option NgSession → Trace → Type 0
  Served s tr none tr' = Unit
  Served s tr (some s') tr' = Shut s' × Keeps w (socket_of s) tr (socket_of s') tr'

  open_udp :
      (sock : ℕ) (s : UdpNode)
      → Shut (udp_session s)
      → s.socket ≡ some sock
      → (is_closed s.udp.state ≡ false) × (is_blocked s.udp.state ≡ false)
  open_udp sock s inv e = ground (arith, inv)

  check_socket-Served :
      (sock : ℕ) (ev : Events) (s : NgSession) (tr : Trace)
      → Shut s
      → socket_of s ≡ some sock
      → let after = check_socket k sock ev s tr in Served s tr after.0 after.1
  unfolding check_socket
  check_socket-Served sock ev (icmp_session s) tr inv e =
      (tt, ground (arith, check_icmp_socket-watched k w sock ev s.icmp tr))
  check_socket-Served sock ev (tcp_session s) tr inv e =
      (Step-SocketInv k (event sock ev e) inv, check_tcp_socket-Keeps k w sock ev s tr e)
  check_socket-Served sock ev (udp_session s) tr inv e =
      let open_state = open_udp sock s inv e in
      ground (
        arith,
        udp_loop-watched k w (k.waiting tr sock) sock ev s.udp tr,
        udp_loop-LoopKeeps (k.waiting tr sock) sock ev s.udp tr open_state.0 open_state.1,
        open_state,
      )

  has_socket-eq : (sock : ℕ) (s : NgSession) → has_socket sock s ≡ true → socket_of s ≡ some sock
  has_socket-eq sock s h = ground arith

  pub check_downstream-Good :
      (sock : ℕ) (ev : Events) (sessions : List NgSession) (tr : Trace)
      → AllShut sessions
      → let after = check_downstream k sock ev sessions tr in Good w sessions tr after.0 after.1
  unfolding check_downstream
  check_downstream-Good sock ev [] tr inv = tt
  check_downstream-Good sock ev (s ∷ rest) tr inv = elim (Bool-cases (has_socket sock s)) [
    | inl own ↦
        ground (arith, check_socket-Served sock ev s tr inv.0 (has_socket-eq sock s own), inv)
    | inr other ↦ ground (arith, check_downstream-Good sock ev rest tr inv.1, inv)
  ]
