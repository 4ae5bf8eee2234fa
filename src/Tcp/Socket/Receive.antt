-- ===== src/Tcp/Socket/Receive.antt =====
-- The reading half of `check_tcp_socket` in tun2http/tcp.c: data of the socket for the client.
use nroxy.Prelude.{ℕ, ◌+◌, ◌&&◌, none, List, [], ◌∷◌, ltb, if◌then◌else◌, length, u32}
use nroxy.Os.{
  Kernel, M, pure, ◌>>=◌, ◌>>◌, Events, get_time, log_call, socket_recv, received, recv_failed,
  close as close_call,
}
use nroxy.Net.Session.{TcpState, established, fin_wait1, close_wait, last_ack, TcpSession, TcpNode}
use nroxy.Tcp.Write.{write_rst, write_data, write_fin_ack}
use nroxy.Tcp.Window.{get_send_window}
use nroxy.Tcp.Socket.Forward.{is_empty, is_retry}

-- The state after the FIN is written, or not.
abbrev pub after_eof : TcpState → TcpState
after_eof established = fin_wait1
after_eof close_wait = last_ack
after_eof s = s

module _ (k : Kernel) where
  -- `recv` returned 0.
  unfoldable pub receive_eof : TcpSession → M TcpSession
  unfolding write_fin_ack write_rst
  receive_eof t =
      if is_empty t.forward
      then (do
        (t', written) ← write_fin_ack k t
        pure (record t' {
          local_seq = if written then u32 (t'.local_seq + 1) else t'.local_seq;
          state = after_eof t'.state;
        }))
      else write_rst k t

  unfoldable pub receive_bytes : List ℕ → TcpSession → M TcpSession
  unfolding write_data
  receive_bytes bytes t = do
    (t', written) ← write_data k (record t { received = t.received + length bytes }) bytes
    pure (if written then record t' { local_seq = u32 (t'.local_seq + length bytes) } else t')

  -- How much is read: what the client has room for, and at most a segment.
  unfoldable pub read_size : TcpSession → ℕ
  read_size t =
      let send_window = get_send_window t in if ltb t.mss send_window then t.mss else send_window

  unfoldable pub receive_data : ℕ → Events → TcpNode → M TcpNode
  unfolding receive_eof receive_bytes read_size
  receive_data sock ev s =
      if ev.input && ltb 0 (get_send_window s.tcp)
      then (do
        now ← get_time k
        let t = record (s.tcp) { time = now }
        result ← socket_recv k sock (read_size t)
        elim result [
          | recv_failed e ↦
              (if is_retry e
                then pure (record s { tcp = t })
                else (do t' ← write_rst k t; pure (record s { tcp = t' })))
          | received [] ↦ (do
            t' ← receive_eof t
            log_call (close_call sock)
            pure (record s { tcp = t'; socket = none }))
          | received (b ∷ bytes) ↦ (do
            t' ← receive_bytes (b ∷ bytes) t
            pure (record s { tcp = t' }))
        ])
      else pure s
