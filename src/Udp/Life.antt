-- ===== src/Udp/Life.antt =====
-- The life of a UDP session of tun2http/udp.c: any sequence of datagrams, socket events and checks.
use nroxy.Prelude.{
  ℕ, ◌+◌, ◌≤◌, ◌≡◌, refl, ◌∙◌, ◌⊎◌, inl, inr, Bool, true, false, Option, none, some, List, [], ◌∷◌,
  arith, if◌then◌else◌, Bool-cases, drop,
}
use mathlib.Core.Path.{subst}
use nroxy.Os.{Kernel, Trace, M, pure, Events, Recv, received, recv_failed, recv, time}
use nroxy.Tcp.Socket.Forward.{is_retry}
use nroxy.Net.Session.{UdpState, active, finishing, closed, blocked, UdpSession, UdpNode}
use nroxy.Dhcp.{DhcpResult, refused, done, out_of_bounds, check_dhcp}
use nroxy.Udp.Check.{is_active, is_closed, is_blocked, finish_udp, check_udp_session}
use nroxy.Udp.Socket.{udp_received, check_udp_socket}
use nroxy.Udp.Handle.{send_datagram, forward_udp}

-- The order in which a session passes through its states.
abbrev pub rank : UdpState → ℕ
rank active = 0
rank finishing = 1
rank closed = 2
rank blocked = 3

-- Where a session is closed or blocked, there is no socket.
abbrev pub UdpInv : UdpNode → Type 0
UdpInv s = ((is_closed s.udp.state ≡ false) × (is_blocked s.udp.state ≡ false)) ⊎ (s.socket ≡ none)

-- No way back, and none into or out of the blocked state.
abbrev pub Onward : UdpState → UdpState → Type 0
Onward a b = (rank a ≤ rank b) × (is_blocked b ≡ is_blocked a)

Onward-trans : (a b c : UdpState) → Onward a b → Onward b c → Onward a c
Onward-trans a b c h k = (omega arith, k.1 ∙ h.1)

-- What an operation on an open session does to its state.
abbrev pub Ends : UdpState → UdpState → Type 0
Ends a b = (b ≡ a) ⊎ (b ≡ finishing)

module _ (k : Kernel) where
  abbrev DhcpKeeps : UdpSession → DhcpResult → Type 0
  DhcpKeeps u (refused v) = v.state ≡ u.state
  DhcpKeeps u (done v) = v.state ≡ u.state
  DhcpKeeps u out_of_bounds = Unit

  check_dhcp-DhcpKeeps :
      (u : UdpSession) (request : List ℕ) (tr : Trace) → DhcpKeeps u (check_dhcp k u request tr).0
  unfolding check_dhcp
  check_dhcp-DhcpKeeps u request tr = ground arith

  send_datagram-Ends :
      (bytes : List ℕ) (s : UdpNode) (tr : Trace)
      → Ends s.udp.state (send_datagram k bytes s tr).0.0.udp.state
        × ((send_datagram k bytes s tr).0.0.socket ≡ s.socket)
  unfolding send_datagram
  send_datagram-Ends bytes s tr = ground arith

  abbrev pub ForwardKeeps : UdpNode → Option (UdpNode × Bool) → Type 0
  ForwardKeeps s none = Unit
  ForwardKeeps s (some (s', sent)) = Ends s.udp.state s'.udp.state × (s'.socket ≡ s.socket)

  pub forward_udp-ForwardKeeps :
      (pkt : List ℕ) (off : ℕ) (s : UdpNode) (tr : Trace)
      → ForwardKeeps s (forward_udp k pkt off s tr).0
  unfolding forward_udp
  forward_udp-ForwardKeeps pkt off s tr =
      let bytes = drop (off + 8) pkt in
      let answered = check_dhcp k s.udp bytes tr in
      ground (
        arith,
        check_dhcp-DhcpKeeps s.udp bytes tr,
        send_datagram-Ends bytes s tr,
        send_datagram-Ends bytes s answered.1,
      )

  abbrev pub EventKeeps : UdpSession → Option UdpSession → Type 0
  EventKeeps u none = Unit
  EventKeeps u (some v) = Ends u.state v.state

  udp_received-EventKeeps :
      (bytes : List ℕ) (u : UdpSession) (tr : Trace) → EventKeeps u (udp_received k bytes u tr).0
  unfolding udp_received
  udp_received-EventKeeps bytes u tr = ground arith

  -- What is done with the result of `recv`.
  abbrev after_recv : UdpSession → Recv → M (Option UdpSession)
  after_recv u (recv_failed e) =
      pure (some (if is_retry e then u else record u { state = finishing }))
  after_recv u (received []) = pure (some (record u { state = finishing }))
  after_recv u (received (b ∷ bytes)) = udp_received k (b ∷ bytes) u

  after_recv-EventKeeps :
      (u : UdpSession) (r : Recv) (tr : Trace) → EventKeeps u (after_recv u r tr).0
  after_recv-EventKeeps u (recv_failed e) tr = ground arith
  after_recv-EventKeeps u (received []) tr = inr refl
  after_recv-EventKeeps u (received (b ∷ bytes)) tr = udp_received-EventKeeps (b ∷ bytes) u tr

  pub check_udp_socket-EventKeeps :
      (sock : ℕ) (ev : Events) (u : UdpSession) (tr : Trace)
      → EventKeeps u (check_udp_socket k sock ev u tr).0
  unfolding check_udp_socket
  check_udp_socket-EventKeeps sock ev u tr = elim (Bool-cases ev.error) [
    | inl failed ↦ rw (failed, check_udp_socket) (inr refl)
    | inr fine ↦ elim (Bool-cases ev.input) [
      | inr quiet ↦ rw (fine, quiet, check_udp_socket) (inl refl)
      | inl ready ↦
          rw (fine, ready, check_udp_socket)
            (let now = k.now tr in
              after_recv-EventKeeps (record u { time = now })
                (k.bytes_received (time ∷ tr) sock u.mss) (recv sock u.mss ∷ time ∷ tr))
    ]
  ]

  pub check_udp_session-keeps :
      (s : UdpNode) (sessions maxsessions : ℕ) (tr : Trace)
      → UdpInv s
      → let s' = (check_udp_session k s sessions maxsessions tr).0.0 in
        UdpInv s' × Onward s.udp.state s'.udp.state
  unfolding check_udp_session finish_udp
  check_udp_session-keeps s sessions maxsessions tr inv = ground (arith, inv)

  -- A datagram of the client reaches an active session; an event needs a socket.
  pub data Step (s : UdpNode) (tr : Trace) : UdpNode → Trace → Type 0 where
    datagram :
        (pkt : List ℕ) (off : ℕ) (s' : UdpNode) (sent : Bool)
        → is_active s.udp.state ≡ true
        → (forward_udp k pkt off s tr).0 ≡ some (s', sent)
        → Step s tr s' (forward_udp k pkt off s tr).1
    event :
        (sock : ℕ) (ev : Events) (u : UdpSession)
        → s.socket ≡ some sock
        → (check_udp_socket k sock ev s.udp tr).0 ≡ some u
        → Step s tr (record s { udp = u }) (check_udp_socket k sock ev s.udp tr).1
    check :
        (sessions maxsessions : ℕ)
        → Step s tr
            (check_udp_session k s sessions maxsessions tr).0.0
            (check_udp_session k s sessions maxsessions tr).1

  ended_keeps :
      (s s' : UdpNode)
      → (is_active s.udp.state ≡ true)
        ⊎ ((is_closed s.udp.state ≡ false) × (is_blocked s.udp.state ≡ false))
      → Ends s.udp.state s'.udp.state
      → UdpInv s' × Onward s.udp.state s'.udp.state
  ended_keeps s s' live e = ground arith

  Step-keeps :
      {s : UdpNode} {tr : Trace} {s' : UdpNode} {tr' : Trace}
      → Step s tr s' tr'
      → UdpInv s
      → UdpInv s' × Onward s.udp.state s'.udp.state
  Step-keeps {s} {tr} (datagram pkt off s' sent live e) inv =
      let kept = subst (ForwardKeeps s) e (forward_udp-ForwardKeeps pkt off s tr) in
      ended_keeps s s' (inl live) kept.0
  Step-keeps {s} {tr} (event sock ev u e f) inv =
      let kept = subst (EventKeeps s.udp) f (check_udp_socket-EventKeeps sock ev s.udp tr) in
      ended_keeps s (record s { udp = u }) (ground (arith, inv)) kept
  Step-keeps {s} {tr} (check sessions maxsessions) inv =
      check_udp_session-keeps s sessions maxsessions tr inv

  pub data UdpReach (s : UdpNode) (tr : Trace) : UdpNode → Trace → Type 0 where
    start : UdpReach s tr s tr
    next :
        {t u : UdpNode} {trₜ trᵤ : Trace}
        → UdpReach s tr t trₜ
        → Step t trₜ u trᵤ
        → UdpReach s tr u trᵤ

  -- However the client, the kernel and the clock behave, a UDP session that has no socket where it is
  -- closed or blocked stays such a session through any sequence of datagrams, socket events and checks;
  -- its state only moves on from active over finishing to closed, and it becomes blocked or is
  -- unblocked in no way.
  pub UdpReach-keeps :
      {s : UdpNode} {tr : Trace} {t : UdpNode} {trₜ : Trace}
      → UdpInv s
      → UdpReach s tr t trₜ
      → UdpInv t × Onward s.udp.state t.udp.state
  UdpReach-keeps {s} inv start = (inv, (omega arith, refl))
  UdpReach-keeps {s} inv (next {t} {u} r st) =
      let before = UdpReach-keeps inv r in
      let after = Step-keeps st before.0 in
      (after.0, Onward-trans s.udp.state t.udp.state u.udp.state before.1 after.1)
