-- ===== src/Session/Watch/Tcp.antt =====
-- What the operations of tun2http/tcp.c on a session do to the sockets that epoll watches.
use nroxy.Prelude.{ℕ, ◌≡◌, refl, Bool, true, not, some, List, [], ◌∷◌, arith, sub_u32}
use nroxy.Prelude.Int.{pos_part}
use nroxy.Os.{Kernel, Trace, Events, recv, send, time}
use nroxy.Net.Session.{TcpSession, TcpNode, Segment}
use nroxy.Tcp.Header.{TcpHdr}
use nroxy.Tcp.Write.{write_rst}
use nroxy.Tcp.Window.{get_receive_window}
use nroxy.Tcp.Monitor.{monitor_tcp_session}
use nroxy.Tcp.Handle.Known.{segment_in_order, other_ack, handle_flags, touched, handle_known}
use nroxy.Tcp.Queue.{queue_tcp}
use nroxy.Tcp.Handle.{request_tunnel, handle_session}
use nroxy.Tcp.Socket.Forward.{forward_data, outgoing, clamp_sent, advance}
use nroxy.Tcp.Socket.Receive.{receive_data}
use nroxy.Tcp.Socket.{
  drain, accept_tunnel, socket_error, connect_answer, socket_connected, acknowledge, forward_ready,
  relay, check_tcp_socket,
}
use nroxy.Tcp.Check.{check_tcp_session}
use nroxy.Session.Watch.{watched, Keeps}

module _ (k : Kernel) (w : ℕ) where
  pub write_rst-watched :
      (t : TcpSession) (tr : Trace) → watched w (write_rst k t tr).1 ≡ watched w tr
  unfolding write_rst
  write_rst-watched t tr = ground arith

  forward_data-watched :
      (sock size : ℕ) (q : List Segment) (t : TcpSession) (fwd : Bool) (tr : Trace)
      → watched w (forward_data k sock size q t fwd tr).1 ≡ watched w tr
  unfolding forward_data
  forward_data-watched sock size [] t fwd tr = refl
  forward_data-watched sock size (s ∷ rest) t fwd tr =
      let bytes = outgoing t s in
      let len = sub_u32 s.len s.sent in
      let result = k.bytes_sent tr sock bytes (not s.psh) in
      let tr' = send sock bytes (not s.psh) ∷ tr in
      let n = pos_part (clamp_sent result len) in
      ground (
        arith,
        forward_data-watched sock (sub_u32 size n) rest (advance t s rest n) true tr',
        write_rst-watched t tr',
      )

  drain-watched :
      (sock : ℕ) (chunks : List (List ℕ)) (tr : Trace)
      → watched w (drain sock chunks tr).1 ≡ watched w tr
  unfolding drain
  drain-watched sock [] tr = refl
  drain-watched sock (c ∷ chunks) tr = drain-watched sock chunks (recv sock 512 ∷ tr)

  segment_in_order-watched :
      (h : TcpHdr) (t : TcpSession) (tr : Trace)
      → watched w (segment_in_order k h t tr).1 ≡ watched w tr
  unfolding segment_in_order
  segment_in_order-watched h t tr = ground arith

  other_ack-watched :
      (h : TcpHdr) (s : TcpNode) (tr : Trace) → watched w (other_ack k h s tr).1 ≡ watched w tr
  unfolding other_ack
  other_ack-watched h s tr = ground arith

  handle_flags-watched :
      (h : TcpHdr) (s : TcpNode) (tr : Trace) → watched w (handle_flags k h s tr).1 ≡ watched w tr
  unfolding handle_flags
  handle_flags-watched h s tr =
      ground (arith, segment_in_order-watched h s.tcp tr, other_ack-watched h s tr)

  handle_known-watched :
      (h : TcpHdr) (bytes : List ℕ) (n : ℕ) (s : TcpNode) (tr : Trace)
      → watched w (handle_known k h bytes n s tr).1 ≡ watched w tr
  unfolding handle_known
  handle_known-watched h bytes n s tr =
      let t = touched h (k.now tr) s.tcp in
      let queued = queue_tcp h.seq h.psh bytes n t in
      ground (
        arith,
        write_rst-watched s.tcp tr,
        write_rst-watched t (time ∷ tr),
        handle_flags-watched h (record s { tcp = t }) (time ∷ tr),
        handle_flags-watched h (record s { tcp = queued }) (time ∷ tr),
      )

  request_tunnel-watched :
      (sni : List ℕ) (s : TcpNode) (tr : Trace)
      → watched w (request_tunnel k sni s tr).1 ≡ watched w tr
  unfolding request_tunnel
  request_tunnel-watched sni s tr = ground arith

  pub handle_session-watched :
      (sni : List ℕ) (h : TcpHdr) (bytes : List ℕ) (n : ℕ) (s : TcpNode) (tr : Trace)
      → watched w (handle_session k sni h bytes n s tr).1 ≡ watched w tr
  unfolding handle_session
  handle_session-watched sni h bytes n s tr =
      let asked = request_tunnel k sni s tr in
      ground (
        arith,
        request_tunnel-watched sni s tr,
        handle_known-watched h bytes n (record s { tcp = asked.0 }) asked.1,
        handle_known-watched h bytes n s tr,
      )

  pub monitor_tcp_session-watched :
      (sock : ℕ) (s : TcpNode) (tr : Trace)
      → watched w (monitor_tcp_session k sock s tr).1 ≡ watched w tr
  unfolding monitor_tcp_session
  monitor_tcp_session-watched sock s tr = ground arith

  forward_ready-watched :
      (sock : ℕ) (ev : Events) (s : TcpNode) (tr : Trace)
      → watched w (forward_ready k sock ev s tr).1 ≡ watched w tr
  unfolding forward_ready
  forward_ready-watched sock ev s tr = grind (arith, forward_data-watched)

  acknowledge-watched :
      (fwd : Bool) (prev : ℕ) (t : TcpSession) (tr : Trace)
      → watched w (acknowledge k fwd prev t tr).1 ≡ watched w tr
  unfolding acknowledge
  acknowledge-watched fwd prev t tr = ground arith

  pub get_receive_window-watched :
      (s : TcpNode) (tr : Trace) → watched w (get_receive_window k s tr).1 ≡ watched w tr
  unfolding get_receive_window
  get_receive_window-watched s tr = ground arith

  receive_data-Keeps :
      (sock : ℕ) (ev : Events) (s : TcpNode) (tr : Trace)
      → s.socket ≡ some sock
      → let after = receive_data k sock ev s tr in Keeps w s.socket tr after.0.socket after.1
  unfolding receive_data
  receive_data-Keeps sock ev s tr e = ground arith

  relay-Keeps :
      (sock : ℕ) (ev : Events) (s : TcpNode) (tr : Trace)
      → s.socket ≡ some sock
      → let after = relay k sock ev s tr in Keeps w s.socket tr after.0.socket after.1
  unfolding relay
  relay-Keeps sock ev s tr e =
      let forwarded = forward_ready k sock ev s tr in
      let t = forwarded.0.0 in
      let measured = get_receive_window k (record s { tcp = t }) forwarded.1 in
      let t₁ = record t { recv_window = measured.0 } in
      let acked = acknowledge k forwarded.0.1 t.recv_window t₁ measured.1 in
      ground (
        arith,
        forward_ready-watched sock ev s tr,
        get_receive_window-watched (record s { tcp = t }) forwarded.1,
        acknowledge-watched forwarded.0.1 t.recv_window t₁ measured.1,
        receive_data-Keeps sock ev (record s { tcp = acked.0 }) acked.1 e,
      )

  accept_tunnel-watched :
      (sock : ℕ) (t : TcpSession) (tr : Trace)
      → watched w (accept_tunnel k sock t tr).1 ≡ watched w tr
  unfolding accept_tunnel
  accept_tunnel-watched sock t tr = drain-watched sock (k.unread tr sock) tr

  connect_answer-watched :
      (sock : ℕ) (t : TcpSession) (tr : Trace)
      → watched w (connect_answer k sock t tr).1 ≡ watched w tr
  unfolding connect_answer
  connect_answer-watched sock t tr = ground (
    arith,
    accept_tunnel-watched sock t (recv sock 12 ∷ tr),
    write_rst-watched t (recv sock 12 ∷ tr),
  )

  socket_connected-watched :
      (t : TcpSession) (tr : Trace) → watched w (socket_connected k t tr).1 ≡ watched w tr
  unfolding socket_connected
  socket_connected-watched t tr = ground arith

  socket_error-watched :
      (sock : ℕ) (t : TcpSession) (tr : Trace)
      → watched w (socket_error k sock t tr).1 ≡ watched w tr
  unfolding socket_error
  socket_error-watched sock t tr = ground arith

  pub check_tcp_socket-Keeps :
      (sock : ℕ) (ev : Events) (s : TcpNode) (tr : Trace)
      → s.socket ≡ some sock
      → let after = check_tcp_socket k sock ev s tr in Keeps w s.socket tr after.0.socket after.1
  unfolding check_tcp_socket
  check_tcp_socket-Keeps sock ev s tr e = ground (
    arith,
    socket_error-watched sock s.tcp tr,
    connect_answer-watched sock s.tcp tr,
    socket_connected-watched s.tcp tr,
    relay-Keeps sock ev s tr e,
  )

  pub check_tcp_session-Keeps :
      (s : TcpNode) (sessions maxsessions : ℕ) (tr : Trace)
      → let after = check_tcp_session k s sessions maxsessions tr in
        Keeps w s.socket tr after.0.0.socket after.1
  unfolding check_tcp_session
  check_tcp_session-Keeps s sessions maxsessions tr = ground arith
