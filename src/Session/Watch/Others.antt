-- ===== src/Session/Watch/Others.antt =====
-- What the operations of tun2http/udp.c and tun2http/icmp.c on a session do to the sockets that epoll
-- watches.
use nroxy.Prelude.{ℕ, zero, suc, ◌+◌, ◌≡◌, refl, ◌∙◌, Option, none, some, List, ◌∷◌, arith, drop}
use nroxy.Os.{Kernel, Trace, M, Events, poll, pure}
use nroxy.Net.Session.{UdpSession, UdpNode, IcmpSession, IcmpNode}
use nroxy.Dhcp.{check_dhcp}
use nroxy.Udp.Check.{finish_udp, check_udp_session}
use nroxy.Udp.Socket.{udp_received, check_udp_socket}
use nroxy.Udp.Handle.{send_datagram, forward_udp}
use nroxy.Icmp.Check.{check_icmp_session, icmp_received, check_icmp_socket}
use nroxy.Icmp.Handle.{send_echo}
use nroxy.Udp.Packet.{write_udp}
use nroxy.Icmp.Packet.{write_icmp}
use nroxy.Session.Events.{udp_loop}
use nroxy.Session.Watch.{watched, Keeps}

module _ (k : Kernel) (w : ℕ) where
  write_udp-watched :
      (u : UdpSession) (bytes : List ℕ) (tr : Trace)
      → watched w (write_udp k u bytes tr).1 ≡ watched w tr
  unfolding write_udp
  write_udp-watched u bytes tr = refl

  write_icmp-watched :
      (cur : IcmpSession) (bytes : List ℕ) (tr : Trace)
      → watched w (write_icmp k cur bytes tr).1 ≡ watched w tr
  unfolding write_icmp
  write_icmp-watched cur bytes tr = refl

  check_dhcp-watched :
      (u : UdpSession) (request : List ℕ) (tr : Trace)
      → watched w (check_dhcp k u request tr).1 ≡ watched w tr
  unfolding check_dhcp
  check_dhcp-watched u request tr = grind (arith, write_udp-watched)

  send_datagram-watched :
      (bytes : List ℕ) (s : UdpNode) (tr : Trace)
      → watched w (send_datagram k bytes s tr).1 ≡ watched w tr
  unfolding send_datagram
  send_datagram-watched bytes s tr = ground arith

  pub forward_udp-watched :
      (pkt : List ℕ) (off : ℕ) (s : UdpNode) (tr : Trace)
      → watched w (forward_udp k pkt off s tr).1 ≡ watched w tr
  unfolding forward_udp
  forward_udp-watched pkt off s tr =
      let bytes = drop (off + 8) pkt in
      let answered = check_dhcp k s.udp bytes tr in
      ground (
        arith,
        check_dhcp-watched s.udp bytes tr,
        send_datagram-watched bytes s tr,
        send_datagram-watched bytes s answered.1,
      )

  udp_received-watched :
      (bytes : List ℕ) (u : UdpSession) (tr : Trace)
      → watched w (udp_received k bytes u tr).1 ≡ watched w tr
  unfolding udp_received
  udp_received-watched bytes u tr = ground arith

  check_udp_socket-watched :
      (sock : ℕ) (ev : Events) (u : UdpSession) (tr : Trace)
      → watched w (check_udp_socket k sock ev u tr).1 ≡ watched w tr
  unfolding check_udp_socket
  check_udp_socket-watched sock ev u tr = grind (arith, udp_received-watched)

  -- What `udp_loop` does after the first datagram.
  abbrev pub go_on : ℕ → ℕ → Events → Option UdpSession → M (Option UdpSession)
  go_on n sock ev none = pure none
  go_on n sock ev (some u) = udp_loop k n sock ev u

  go_on-watched :
      (n sock : ℕ) (ev : Events)
      → ((u : UdpSession) (tr : Trace) → watched w (udp_loop k n sock ev u tr).1 ≡ watched w tr)
      → (result : Option UdpSession) (tr : Trace)
      → watched w (go_on n sock ev result tr).1 ≡ watched w tr
  go_on-watched n sock ev ih none tr = refl
  go_on-watched n sock ev ih (some u) tr = ih u tr

  pub udp_loop-watched :
      (n sock : ℕ) (ev : Events) (u : UdpSession) (tr : Trace)
      → watched w (udp_loop k n sock ev u tr).1 ≡ watched w tr
  unfolding udp_loop
  udp_loop-watched zero sock ev u tr = refl
  udp_loop-watched (suc n) sock ev u tr =
      let result = check_udp_socket k sock ev u (poll sock ∷ tr) in
      go_on-watched n sock ev (udp_loop-watched n sock ev) result.0 result.1
      ∙ check_udp_socket-watched sock ev u (poll sock ∷ tr)

  pub check_udp_session-Keeps :
      (s : UdpNode) (sessions maxsessions : ℕ) (tr : Trace)
      → let after = check_udp_session k s sessions maxsessions tr in
        Keeps w s.socket tr after.0.0.socket after.1
  unfolding check_udp_session finish_udp
  check_udp_session-Keeps s sessions maxsessions tr = ground arith

  pub send_echo-watched :
      (pkt : List ℕ) (off : ℕ) (s : IcmpNode) (tr : Trace)
      → (watched w (send_echo k pkt off s tr).1 ≡ watched w tr)
        × ((send_echo k pkt off s tr).0.0.socket ≡ s.socket)
  unfolding send_echo
  send_echo-watched pkt off s tr = ground arith

  icmp_received-watched :
      (bytes : List ℕ) (cur : IcmpSession) (tr : Trace)
      → watched w (icmp_received k bytes cur tr).1 ≡ watched w tr
  unfolding icmp_received
  icmp_received-watched bytes cur tr = grind (arith, write_icmp-watched)

  pub check_icmp_socket-watched :
      (sock : ℕ) (ev : Events) (cur : IcmpSession) (tr : Trace)
      → watched w (check_icmp_socket k sock ev cur tr).1 ≡ watched w tr
  unfolding check_icmp_socket
  check_icmp_socket-watched sock ev cur tr = grind (arith, icmp_received-watched)

  pub check_icmp_session-Keeps :
      (s : IcmpNode) (sessions maxsessions : ℕ) (tr : Trace)
      → let after = check_icmp_session k s sessions maxsessions tr in
        Keeps w s.socket tr after.0.0.socket after.1
  unfolding check_icmp_session
  check_icmp_session-Keeps s sessions maxsessions tr = ground arith
