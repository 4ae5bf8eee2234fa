-- ===== src/Tcp/Machine/Sockets.antt =====
-- `check_tcp_socket` of tun2http/tcp.c changes the state as its table says.
use nroxy.Prelude.{
  ℕ, ◌≡◌, refl, ◌⊎◌, inl, Bool, true, false, not, none, List, [], ◌∷◌, arith, sub_u32,
}
use nroxy.Prelude.Int.{pos_part}
use nroxy.Os.{Kernel, Trace, Events, send}
use nroxy.Net.Session.{
  TcpState, TcpSession, TcpNode, Segment, is_close, is_listen, is_open, closing,
}
use nroxy.Tcp.Write.{write_rst}
use nroxy.Tcp.Window.{get_receive_window}
use nroxy.Tcp.Socket.Forward.{forward_data, outgoing, clamp_sent, advance}
use nroxy.Tcp.Socket.Receive.{receive_data}
use nroxy.Tcp.Socket.{
  socket_error, connect_answer, socket_connected, acknowledge, forward_ready, relay,
  check_tcp_socket,
}
use nroxy.Tcp.Machine.Edges.{is_server_move, is_shut}

-- What is moved after it is kept is moved.
is_kept-is_server_move :
    (a b c : TcpState)
    → (b ≡ a) ⊎ ((b ≡ closing) × (is_close a ≡ false))
    → is_server_move b c ≡ true
    → is_server_move a c ≡ true
is_kept-is_server_move a b c k m = ground arith

-- A state in which the socket is shut is entered only as the socket is closed.
abbrev pub Closes : TcpNode → Type 0
Closes s = (is_shut s.tcp.state ≡ false) ⊎ (s.socket ≡ none)

module _ (k : Kernel) where
  abbrev Kept : TcpSession → TcpSession → Type 0
  Kept t t' = (t'.state ≡ t.state) ⊎ ((t'.state ≡ closing) × (is_close t.state ≡ false))

  write_rst-Kept : (t : TcpSession) (tr : Trace) → Kept t (write_rst k t tr).0
  unfolding write_rst
  write_rst-Kept t tr = ground arith

  advance-state :
      (t : TcpSession) (s : Segment) (rest : List Segment) (n : ℕ)
      → (advance t s rest n).state ≡ t.state
  unfolding advance
  advance-state t s rest n = refl

  acknowledge-Kept :
      (fwd : Bool) (prev : ℕ) (t : TcpSession) (tr : Trace)
      → is_close t.state ≡ false
      → Kept t (acknowledge k fwd prev t tr).0
  unfolding acknowledge
  acknowledge-Kept fwd prev t tr h = ground arith

  receive_data-move :
      (sock : ℕ) (ev : Events) (s : TcpNode) (tr : Trace)
      → is_open s.tcp.state ≡ true
      → is_server_move s.tcp.state (receive_data k sock ev s tr).0.tcp.state ≡ true
  unfolding receive_data
  receive_data-move sock ev s tr h = ground arith

  forward_data-Kept :
      (sock room : ℕ) (queue : List Segment) (t : TcpSession) (fwd : Bool) (tr : Trace)
      → Kept t (forward_data k sock room queue t fwd tr).0.0
  unfolding forward_data
  forward_data-Kept sock room [] t fwd tr = inl refl
  forward_data-Kept sock room (s ∷ rest) t fwd tr =
      let bytes = outgoing t s in
      let len = sub_u32 s.len s.sent in
      let result = k.bytes_sent tr sock bytes (not s.psh) in
      let tr' = send sock bytes (not s.psh) ∷ tr in
      let n = pos_part (clamp_sent result len) in
      ground (
        arith,
        forward_data-Kept sock (sub_u32 room n) rest (advance t s rest n) true tr',
        advance-state t s rest n,
        write_rst-Kept t tr',
      )

  forward_ready-Kept :
      (sock : ℕ) (ev : Events) (s : TcpNode) (tr : Trace)
      → Kept s.tcp (forward_ready k sock ev s tr).0.0
  unfolding forward_ready
  forward_ready-Kept sock ev s tr = grind (arith, forward_data-Kept)

  relay-move :
      (sock : ℕ) (ev : Events) (s : TcpNode) (tr : Trace)
      → is_close s.tcp.state ≡ false
      → is_server_move s.tcp.state (relay k sock ev s tr).0.tcp.state ≡ true
  unfolding relay
  relay-move sock ev s tr h =
      let forwarded = forward_ready k sock ev s tr in
      let t = forwarded.0.0 in
      let measured = get_receive_window k (record s { tcp = t }) forwarded.1 in
      let t₁ = record t { recv_window = measured.0 } in
      let acked = acknowledge k forwarded.0.1 t.recv_window t₁ measured.1 in
      ground (
        arith,
        forward_ready-Kept sock ev s tr,
        acknowledge-Kept forwarded.0.1 t.recv_window t₁ measured.1,
        receive_data-move sock ev (record s { tcp = acked.0 }) acked.1,
        is_kept-is_server_move s.tcp.state acked.0.state,
      )

  connect_answer-move :
      (sock : ℕ) (t : TcpSession) (tr : Trace)
      → is_listen t.state ≡ true
      → is_server_move t.state (connect_answer k sock t tr).0.state ≡ true
  unfolding connect_answer
  connect_answer-move sock t tr h = ground arith

  socket_connected-move :
      (t : TcpSession) (tr : Trace)
      → is_listen t.state ≡ true
      → is_server_move t.state (socket_connected k t tr).0.state ≡ true
  unfolding socket_connected
  socket_connected-move t tr h = ground arith

  socket_error-move :
      (sock : ℕ) (t : TcpSession) (tr : Trace)
      → is_server_move t.state (socket_error k sock t tr).0.state ≡ true
  unfolding socket_error
  socket_error-move sock t tr = ground arith

  -- An event of the socket of a session that is not in CLOSE changes its state as the table says.
  pub check_tcp_socket-move :
      (sock : ℕ) (ev : Events) (s : TcpNode) (tr : Trace)
      → is_close s.tcp.state ≡ false
      → is_server_move s.tcp.state (check_tcp_socket k sock ev s tr).0.tcp.state ≡ true
  unfolding check_tcp_socket
  check_tcp_socket-move sock ev s tr h = ground (
    arith,
    socket_error-move sock s.tcp tr,
    connect_answer-move sock s.tcp tr,
    socket_connected-move s.tcp tr,
    relay-move sock ev s tr,
  )

  receive_data-Closes :
      (sock : ℕ) (ev : Events) (s : TcpNode) (tr : Trace)
      → is_open s.tcp.state ≡ true
      → Closes (receive_data k sock ev s tr).0
  unfolding receive_data
  receive_data-Closes sock ev s tr h = ground arith

  relay-Closes :
      (sock : ℕ) (ev : Events) (s : TcpNode) (tr : Trace)
      → is_shut s.tcp.state ≡ false
      → Closes (relay k sock ev s tr).0
  unfolding relay
  relay-Closes sock ev s tr h =
      let forwarded = forward_ready k sock ev s tr in
      let t = forwarded.0.0 in
      let measured = get_receive_window k (record s { tcp = t }) forwarded.1 in
      let t₁ = record t { recv_window = measured.0 } in
      let acked = acknowledge k forwarded.0.1 t.recv_window t₁ measured.1 in
      ground (
        arith,
        forward_ready-Kept sock ev s tr,
        acknowledge-Kept forwarded.0.1 t.recv_window t₁ measured.1,
        receive_data-Closes sock ev (record s { tcp = acked.0 }) acked.1,
      )

  connect_answer-open :
      (sock : ℕ) (t : TcpSession) (tr : Trace)
      → is_listen t.state ≡ true
      → is_shut (connect_answer k sock t tr).0.state ≡ false
  unfolding connect_answer
  connect_answer-open sock t tr h = ground arith

  socket_connected-open :
      (t : TcpSession) (tr : Trace)
      → is_listen t.state ≡ true
      → is_shut (socket_connected k t tr).0.state ≡ false
  unfolding socket_connected
  socket_connected-open t tr h = ground arith

  socket_error-open :
      (sock : ℕ) (t : TcpSession) (tr : Trace)
      → is_close t.state ≡ false
      → is_shut (socket_error k sock t tr).0.state ≡ false
  unfolding socket_error
  socket_error-open sock t tr h = ground arith

  -- After an event of the socket of a session that is not in CLOSE, FIN_WAIT1 or LAST_ACK, it is in none
  -- of these, or its socket is closed.
  pub check_tcp_socket-Closes :
      (sock : ℕ) (ev : Events) (s : TcpNode) (tr : Trace)
      → is_shut s.tcp.state ≡ false
      → Closes (check_tcp_socket k sock ev s tr).0
  unfolding check_tcp_socket
  check_tcp_socket-Closes sock ev s tr h = ground (
    arith,
    socket_error-open sock s.tcp tr,
    connect_answer-open sock s.tcp tr,
    socket_connected-open s.tcp tr,
    relay-Closes sock ev s tr,
  )
