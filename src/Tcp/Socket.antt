-- ===== src/Tcp/Socket.antt =====
-- `check_tcp_socket` of tun2http/tcp.c: what a session does at an event of its socket.
pub mod Forward
pub mod Receive
pub mod Flow
pub mod Failure
pub mod Progress
use nroxy.Prelude.{
  ℕ, ◌+◌, Bool, false, ◌&&◌, ◌||◌, List, [], ◌∷◌, ltb, ◌==◌, if◌then◌else◌, u32, codes,
}
use nroxy.Os.{
  Kernel, M, pure, ◌>>=◌, ◌>>◌, Events, get_time, log_call, get_error, socket_recv, received,
  recv_failed, recv,
}
use nroxy.Net.Bytes.{bytes_eq}
use nroxy.Net.Session.{TcpSession, TcpNode, syn_recv, connected, is_listen, is_close_wait, is_open}
use nroxy.Tcp.Write.{write_rst, write_ack, write_syn_ack}
use nroxy.Tcp.Monitor.{is_request_sent}
use nroxy.Tcp.Window.{get_receive_buffer, get_receive_window}
use nroxy.Tcp.Socket.Forward.{forward_data, is_empty}
use nroxy.Tcp.Socket.Receive.{receive_data}

-- The two status lines by which the proxy accepts a CONNECT.
abbrev pub is_success : List ℕ → Bool
is_success line = bytes_eq line (codes "HTTP/1.0 200") || bytes_eq line (codes "HTTP/1.1 200")

-- `while (recv(s->socket, buffer, sizeof(buffer), 0) > 0) {}`
unfoldable pub drain : ℕ → List (List ℕ) → M (Unit {0})
drain sock [] tr = log_call (recv sock 512) tr
drain sock (_ ∷ chunks) tr = drain sock chunks (recv sock 512 ∷ tr)

module _ (k : Kernel) where
  unfoldable pub socket_error : ℕ → TcpSession → M TcpSession
  unfolding write_rst
  socket_error sock t = do
    now ← get_time k
    log_call (get_error sock)
    write_rst k (record t { time = now })

  -- The proxy has accepted: what it sent besides is thrown away.
  unfoldable pub accept_tunnel : ℕ → TcpSession → M TcpSession
  unfolding drain
  accept_tunnel sock t tr = (
    record t { connect_sent = connected; state = syn_recv },
    (drain sock (k.unread tr sock) tr).1,
  )

  -- The proxy's answer to the CONNECT.
  unfoldable pub connect_answer : ℕ → TcpSession → M TcpSession
  unfolding accept_tunnel write_rst
  connect_answer sock t = do
    answer ← socket_recv k sock 12
    elim answer [
      | recv_failed _ ↦ write_rst k t
      | received line ↦
          (if is_request_sent t.connect_sent
            then (if is_success line then accept_tunnel sock t else write_rst k t)
            else pure t)
    ]

  -- The socket is connected: answer the client's SYN.
  unfoldable pub socket_connected : TcpSession → M TcpSession
  unfolding write_syn_ack
  socket_connected t = do
    (t', written) ← write_syn_ack k (record t { remote_seq = u32 (t.remote_seq + 1) })
    if written
        then (do
          now ← get_time k
          pure (record t' { time = now; local_seq = u32 (t'.local_seq + 1); state = syn_recv }))
        else pure t'

  -- Acknowledge forwarded data; `prev` is the receive window before.
  unfoldable pub acknowledge : Bool → ℕ → TcpSession → M TcpSession
  unfolding write_ack
  acknowledge fwd prev t =
      if fwd || (prev == 0 && ltb 0 t.recv_window)
      then (do
        let fin = fwd && is_empty t.forward && is_close_wait t.state
        (t', written) ←
            write_ack k (if fin then record t { remote_seq = u32 (t.remote_seq + 1) } else t)
        if written then (do now ← get_time k; pure (record t' { time = now })) else pure t')
      else pure t

  unfoldable pub forward_ready : ℕ → Events → TcpNode → M (TcpSession × Bool)
  unfolding forward_data get_receive_buffer
  forward_ready sock ev s =
      if ev.output
      then (do
        buffer ← get_receive_buffer k s.socket
        forward_data k sock (u32 buffer) s.tcp.forward s.tcp false)
      else pure (s.tcp, false)

  unfoldable pub relay : ℕ → Events → TcpNode → M TcpNode
  relay sock ev s = do
    (t, fwd) ← forward_ready sock ev s
    window ← get_receive_window k (record s { tcp = t })
    t' ← acknowledge fwd t.recv_window (record t { recv_window = window })
    if is_open t'.state
        then receive_data k sock ev (record s { tcp = t' })
        else pure (record s { tcp = t' })

  unfoldable pub check_tcp_socket : ℕ → Events → TcpNode → M TcpNode
  check_tcp_socket sock ev s =
      if ev.error
      then (do t ← socket_error sock s.tcp; pure (record s { tcp = t }))
      else if is_listen s.tcp.state
      then (do
        t ← if ev.input then connect_answer sock s.tcp else socket_connected s.tcp
        pure (record s { tcp = t }))
      else relay sock ev s
