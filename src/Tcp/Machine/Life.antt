-- ===== src/Tcp/Machine/Life.antt =====
-- The life of a TCP session of tun2http/tcp.c: any sequence of segments, socket events, checks and
-- monitorings, as a step relation on the session and the trace.
use nroxy.Prelude.{ℕ, ◌≡◌, ◌⊎◌, true, false, none, some, List, arith}
use nroxy.Os.{Kernel, Trace, Events}
use nroxy.Net.Session.{listen, close, TcpNode, is_close}
use nroxy.Tcp.Header.{TcpHdr}
use nroxy.Tcp.Check.{check_tcp_session}
use nroxy.Tcp.Monitor.{monitor_tcp_session}
use nroxy.Tcp.Handle.{is_not_sent, request_tunnel, handle_session}
use nroxy.Tcp.Socket.{check_tcp_socket}
use nroxy.Tcp.Machine.Edges.{
  is_shut, is_client_move, is_watch_move, Call, of_client, of_server, of_clock, of_watch, may_move,
}
use nroxy.Tcp.Machine.Follows.{handle_known-move, check_tcp_session-state, queue_tcp-state}
use nroxy.Tcp.Machine.Sockets.{check_tcp_socket-move, check_tcp_socket-Closes}

-- Where the state says that the socket is shut, there is no socket.
abbrev pub SocketInv : TcpNode → Type 0
SocketInv s = (is_shut s.tcp.state ≡ false) ⊎ (s.socket ≡ none)

module _ (k : Kernel) where
  -- One call on a session. A socket event and a monitoring need a socket.
  pub data Step (s : TcpNode) (tr : Trace) : TcpNode → Trace → Type 0 where
    segment :
        (sni : List ℕ) (h : TcpHdr) (bytes : List ℕ) (n : ℕ)
        → Step s tr (handle_session k sni h bytes n s tr).0 (handle_session k sni h bytes n s tr).1
    event :
        (sock : ℕ) (ev : Events)
        → s.socket ≡ some sock
        → Step s tr (check_tcp_socket k sock ev s tr).0 (check_tcp_socket k sock ev s tr).1
    check :
        (sessions maxsessions : ℕ)
        → Step s tr
            (check_tcp_session k s sessions maxsessions tr).0.0
            (check_tcp_session k s sessions maxsessions tr).1
    monitor :
        (sock : ℕ)
        → s.socket ≡ some sock
        → Step s tr (monitor_tcp_session k sock s tr).0.0 (monitor_tcp_session k sock s tr).1

  monitor_tcp_session-move :
      (sock : ℕ) (s : TcpNode) (tr : Trace)
      → is_close s.tcp.state ≡ false
      → (is_watch_move s.tcp.state (monitor_tcp_session k sock s tr).0.0.tcp.state ≡ true)
        × ((monitor_tcp_session k sock s tr).0.0.socket ≡ s.socket)
  unfolding monitor_tcp_session
  monitor_tcp_session-move sock s tr h = ground arith

  request_tunnel-cases :
      (sni : List ℕ) (s : TcpNode) (tr : Trace)
      → SocketInv s
      → let b = (request_tunnel k sni s tr).0.state in
        (is_watch_move s.tcp.state b ≡ true)
        ⊎ ((b ≡ listen) × ((is_shut s.tcp.state ≡ false) × (is_not_sent s.tcp.connect_sent ≡ true)))
  unfolding request_tunnel
  request_tunnel-cases sni s tr inv = ground (arith, inv)

  module _ (sni : List ℕ) (h : TcpHdr) (bytes : List ℕ) (n : ℕ) (s : TcpNode) (tr : Trace)
      (inv : SocketInv s) where
    handle_session-cases :
        let asked = request_tunnel k sni s tr in
        let t = asked.0 in
        let b = (handle_session k sni h bytes n s tr).0.tcp.state in
        (is_client_move s.tcp.state b ≡ true) ⊎ (is_client_move t.state b ≡ true)
    unfolding handle_session
    handle_session-cases =
        let asked = request_tunnel k sni s tr in
        ground (
          arith,
          handle_known-move k h bytes n s tr,
          handle_known-move k h bytes n (record s { tcp = asked.0 }) asked.1,
          queue_tcp-state k h.seq h.psh bytes n asked.0,
        )

    pub handle_session-socket : (handle_session k sni h bytes n s tr).0.socket ≡ s.socket
    unfolding handle_session
    handle_session-socket = ground arith

    handle_session-move :
        may_move of_client s.tcp (handle_session k sni h bytes n s tr).0.tcp.state ≡ true
    handle_session-move = ground (arith, handle_session-cases, request_tunnel-cases sni s tr inv)

    pub handle_session-SocketInv : SocketInv (handle_session k sni h bytes n s tr).0
    handle_session-SocketInv =
        ground (
          arith,
          handle_session-cases,
          handle_session-socket,
          request_tunnel-cases sni s tr inv,
          inv,
        )

  check_tcp_session-cases :
      (s : TcpNode) (sessions maxsessions : ℕ) (tr : Trace)
      → let b = (check_tcp_session k s sessions maxsessions tr).0.0.tcp.state in
        (b ≡ close) ⊎ (b ≡ s.tcp.state)
  check_tcp_session-cases s sessions maxsessions tr =
      ground (arith, check_tcp_session-state k s sessions maxsessions tr)

  pub check_tcp_session-SocketInv :
      (s : TcpNode) (sessions maxsessions : ℕ) (tr : Trace)
      → SocketInv s
      → SocketInv (check_tcp_session k s sessions maxsessions tr).0.0
  unfolding check_tcp_session
  check_tcp_session-SocketInv s sessions maxsessions tr inv = ground (arith, inv)

  open_of_socket :
      (s : TcpNode) (sock : ℕ) → SocketInv s → s.socket ≡ some sock → is_shut s.tcp.state ≡ false
  open_of_socket s sock inv e = ground (arith, inv)

  -- Any call on a session whose socket is shut where its state says so leaves it so.
  pub Step-SocketInv :
      {s : TcpNode} {tr : Trace} {s' : TcpNode} {tr' : Trace}
      → Step s tr s' tr'
      → SocketInv s
      → SocketInv s'
  Step-SocketInv {s} {tr} (segment sni h bytes n) inv =
      handle_session-SocketInv sni h bytes n s tr inv
  Step-SocketInv {s} {tr} (event sock ev e) inv =
      check_tcp_socket-Closes k sock ev s tr (open_of_socket s sock inv e)
  Step-SocketInv {s} {tr} (check sessions maxsessions) inv =
      check_tcp_session-SocketInv s sessions maxsessions tr inv
  Step-SocketInv {s} {tr} (monitor sock e) inv =
      ground (arith, monitor_tcp_session-move sock s tr, open_of_socket s sock inv e)

  abbrev pub call_of :
      {s : TcpNode} {tr : Trace} {s' : TcpNode} {tr' : Trace} → Step s tr s' tr' → Call
  call_of (segment sni h bytes n) = of_client
  call_of (event sock ev e) = of_server
  call_of (check sessions maxsessions) = of_clock
  call_of (monitor sock e) = of_watch

  -- Any call on such a session changes its state as the table of the call says.
  Step-may_move :
      {s : TcpNode} {tr : Trace} {s' : TcpNode} {tr' : Trace} (st : Step s tr s' tr')
      → SocketInv s
      → may_move (call_of st) s.tcp s'.tcp.state ≡ true
  Step-may_move {s} {tr} (segment sni h bytes n) inv = handle_session-move sni h bytes n s tr inv
  Step-may_move {s} {tr} (event sock ev e) inv =
      check_tcp_socket-move k sock ev s tr (ground (arith, open_of_socket s sock inv e))
  Step-may_move {s} {tr} (check sessions maxsessions) inv =
      ground (arith, check_tcp_session-cases s sessions maxsessions tr)
  Step-may_move {s} {tr} (monitor sock e) inv =
      (monitor_tcp_session-move sock s tr (ground (arith, open_of_socket s sock inv e))).0

  pub data Reach (s : TcpNode) (tr : Trace) : TcpNode → Trace → Type 0 where
    start : Reach s tr s tr
    next :
        {t u : TcpNode} {trₜ trᵤ : Trace} → Reach s tr t trₜ → Step t trₜ u trᵤ → Reach s tr u trᵤ

  Reach-SocketInv :
      {s : TcpNode} {tr : Trace} {t : TcpNode} {trₜ : Trace}
      → SocketInv s
      → Reach s tr t trₜ
      → SocketInv t
  Reach-SocketInv inv start = inv
  Reach-SocketInv inv (next r st) = Step-SocketInv st (Reach-SocketInv inv r)

  -- A session whose socket is shut where its state says so, after any sequence of segments, socket
  -- events, checks and monitorings, however the client, the kernel and the clock behave: the next call
  -- leaves its state or changes it to one that the table of this call has. A segment of the client
  -- leads from SYN_RECV to ESTABLISHED, from ESTABLISHED to CLOSE_WAIT, from FIN_WAIT1 to CLOSE, from any
  -- state but CLOSE to CLOSING, and, only where no CONNECT was sent yet and the state is not CLOSE,
  -- FIN_WAIT1 or LAST_ACK, to LISTEN; an event of the socket from LISTEN to SYN_RECV, from ESTABLISHED to
  -- FIN_WAIT1, from CLOSE_WAIT to LAST_ACK, and from any state but CLOSE to CLOSING; a check to CLOSE; a
  -- monitoring from any state but CLOSE to CLOSING.
  pub Reach-follows :
      {s : TcpNode} {tr : Trace} {t : TcpNode} {trₜ : Trace} {u : TcpNode} {trᵤ : Trace}
      → SocketInv s
      → Reach s tr t trₜ
      → (st : Step t trₜ u trᵤ) → may_move (call_of st) t.tcp u.tcp.state ≡ true
  Reach-follows inv r st = Step-may_move st (Reach-SocketInv inv r)
