-- ===== src/Session/Watch/Udp.antt =====
-- The sessions and the watched sockets after a packet of the client, in tun2http/udp.c.
use nroxy.Prelude.{ℕ, ◌≡◌, refl, ◌∙◌, Bool, true, false, Option, none, some, List, [], ◌∷◌, arith}
use nroxy.Prelude.Int.{ℤ}
use nroxy.Os.{Kernel, Trace, M, pure, ◌>>=◌, ◌>>◌, Events, epoll_add, time, get_time, log_call}
use nroxy.Net.Session.{
  UdpSession, UdpNode, NgSession, tcp_session, udp_session, icmp_session, active,
}
use nroxy.Udp.Life.{forward_udp-ForwardKeeps}
use nroxy.Udp.Handle.{open_udp_socket, forward_udp, update_udp, new_udp, handle_udp, behind}
use nroxy.Session.Ends.{Shut}
use nroxy.Session.Watch.{watched, AllShut, Carries, GoodFlag}
use nroxy.Session.Watch.Others.{forward_udp-watched}

module _ (k : Kernel) (w : ℕ) where
  -- As `Good` and `Found`, of the results of `update_udp`.
  abbrev FoundUdp :
      List NgSession → Trace → Option (Option (List NgSession × Bool)) → Trace → Type 0
  FoundUdp sessions tr none tr' = watched w tr' ≡ watched w tr
  FoundUdp sessions tr (some none) tr' = Unit
  FoundUdp sessions tr (some (some (after, sent))) tr' =
      AllShut after × Carries w sessions tr after tr'

  behind-FoundUdp :
      (s : NgSession) (sessions : List NgSession) (tr : Trace)
      (found : Option (Option (List NgSession × Bool))) (tr' : Trace)
      → Shut s
      → FoundUdp sessions tr found tr'
      → FoundUdp (s ∷ sessions) tr (behind s found) tr'
  behind-FoundUdp s sessions tr none tr' inv h = h
  behind-FoundUdp s sessions tr (some none) tr' inv h = tt
  behind-FoundUdp s sessions tr (some (some (after, sent))) tr' inv h =
      ((inv, h.0), ground (arith, h.1))

  update_udp-FoundUdp :
      (pkt : List ℕ) (off : ℕ) (sessions : List NgSession) (tr : Trace)
      → AllShut sessions
      → let after = update_udp k pkt off sessions tr in FoundUdp sessions tr after.0 after.1
  unfolding update_udp
  update_udp-FoundUdp pkt off [] tr inv = refl
  update_udp-FoundUdp pkt off (udp_session s ∷ rest) tr inv =
      let later =
        behind-FoundUdp (udp_session s) rest tr (update_udp k pkt off rest tr).0
          (update_udp k pkt off rest tr).1 inv.0 (update_udp-FoundUdp pkt off rest tr inv.1) in
      ground (
        arith,
        later,
        forward_udp-ForwardKeeps k pkt off s tr,
        forward_udp-watched k w pkt off s tr,
        inv,
      )
  update_udp-FoundUdp pkt off (tcp_session s ∷ rest) tr inv =
      behind-FoundUdp (tcp_session s) rest tr (update_udp k pkt off rest tr).0
        (update_udp k pkt off rest tr).1 inv.0 (update_udp-FoundUdp pkt off rest tr inv.1)
  update_udp-FoundUdp pkt off (icmp_session s ∷ rest) tr inv =
      behind-FoundUdp (icmp_session s) rest tr (update_udp k pkt off rest tr).0
        (update_udp k pkt off rest tr).1 inv.0 (update_udp-FoundUdp pkt off rest tr inv.1)

  open_udp_socket-watched :
      (u : UdpSession) (tr : Trace) → watched w (open_udp_socket k u tr).1 ≡ watched w tr
  unfolding open_udp_socket
  open_udp_socket-watched u tr = ground arith

  -- What `handle_udp` does with a new socket.
  abbrev start_udp :
      List ℕ → ℕ → UdpSession → List NgSession → Option ℕ → M (Option (List NgSession × Bool))
  start_udp pkt off u sessions none = pure (some (sessions, false))
  start_udp pkt off u sessions (some sock) = do
    let events : Events = record { input = true; output = false; error = true }
    log_call (epoll_add sock events)
    result ← forward_udp k pkt off (record { udp = u; socket = some sock; events = events })
    elim result [
      | none ↦ pure none
      | some (s', sent) ↦ pure (some (udp_session s' ∷ sessions, sent))
    ]

  start_udp-GoodFlag :
      (pkt : List ℕ) (off : ℕ) (u : UdpSession) (sessions : List NgSession) (socket : Option ℕ)
      (tr tr' : Trace)
      → AllShut sessions
      → u.state ≡ active
      → watched w tr' ≡ watched w tr
      → let after = start_udp pkt off u sessions socket tr' in
        GoodFlag w sessions tr after.0 after.1
  start_udp-GoodFlag pkt off u sessions none tr tr' inv a e = (inv, ground arith)
  start_udp-GoodFlag pkt off u sessions (some sock) tr tr' inv a e =
      let events : Events = record { input = true; output = false; error = true } in
      let s : UdpNode = record { udp = u; socket = some sock; events = events } in
      let added = epoll_add sock events ∷ tr' in
      ground (
        arith,
        forward_udp-ForwardKeeps k pkt off s added,
        forward_udp-watched k w pkt off s added,
        inv,
      )

  -- What `handle_udp` does with the result of the search.
  abbrev after_udp :
      List ℕ
      → ℕ
      → ℤ
      → List NgSession
      → Option (Option (List NgSession × Bool))
      → M (Option (List NgSession × Bool))
  after_udp pkt off uid sessions (some result) = pure result
  after_udp pkt off uid sessions none = do
    now ← get_time k
    let u = new_udp pkt off uid now active
    socket ← open_udp_socket k u
    start_udp pkt off u sessions socket

  after_udp-GoodFlag :
      (pkt : List ℕ) (off : ℕ) (uid : ℤ) (sessions : List NgSession) (tr : Trace)
      (found : Option (Option (List NgSession × Bool))) (tr' : Trace)
      → AllShut sessions
      → FoundUdp sessions tr found tr'
      → let after = after_udp pkt off uid sessions found tr' in
        GoodFlag w sessions tr after.0 after.1
  unfolding new_udp
  after_udp-GoodFlag pkt off uid sessions tr (some none) tr' inv f = tt
  after_udp-GoodFlag pkt off uid sessions tr (some (some r)) tr' inv f = f
  after_udp-GoodFlag pkt off uid sessions tr none tr' inv f =
      let u = new_udp pkt off uid (k.now tr') active in
      let socket = open_udp_socket k u (time ∷ tr') in
      start_udp-GoodFlag pkt off u sessions socket.0 tr socket.1 inv refl
        (open_udp_socket-watched u (time ∷ tr') ∙ f)

  pub handle_udp-GoodFlag :
      (pkt : List ℕ) (off : ℕ) (uid : ℤ) (sessions : List NgSession) (tr : Trace)
      → AllShut sessions
      → let after = handle_udp k pkt off uid sessions tr in GoodFlag w sessions tr after.0 after.1
  unfolding handle_udp
  handle_udp-GoodFlag pkt off uid sessions tr inv =
      let found = update_udp k pkt off sessions tr in
      after_udp-GoodFlag pkt off uid sessions tr found.0 found.1 inv
        (update_udp-FoundUdp pkt off sessions tr inv)
