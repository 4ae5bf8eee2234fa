-- ===== src/Tcp/Socket/Flow.antt =====
-- The flow control of tun2http/tcp.c towards the client.
use nroxy.Prelude.{ℕ, ◌+◌, ◌≤◌, ◌<◌, ◌≡◌, ◌⊎◌, List, ◌∷◌, arith, length, u32}
use nroxy.Os.{Kernel, Trace, Recv, received, recv_failed, Events, time}
use nroxy.Net.Session.{TcpSession, TcpNode}
use nroxy.Tcp.Write.{write_rst, write_data, write_fin_ack}
use nroxy.Tcp.Window.{get_send_window}
use nroxy.Tcp.Window.Bounds.{get_send_window_lem}
use nroxy.Tcp.Socket.Receive.{receive_eof, receive_bytes, read_size, receive_data}

-- `recv` returns no more than it was asked for.
abbrev pub ReadsAtMost : Recv → ℕ → Type 0
ReadsAtMost (received bytes) size = length bytes ≤ size
ReadsAtMost (recv_failed e) size = Unit

module _ (k : Kernel)
    (obeys : (tr : Trace) (sock size : ℕ) → ReadsAtMost (k.bytes_received tr sock size) size) where
  read_size-le : (t : TcpSession) → read_size k t ≤ get_send_window t
  unfolding read_size
  read_size-le t = ground arith

  grown :
      (t : TcpSession) (bytes : List ℕ) (tr : Trace)
      → let t' = (receive_bytes k bytes t tr).0 in
        (t'.acked ≡ t.acked)
        × (t'.send_window ≡ t.send_window)
        × ((t'.local_seq ≡ t.local_seq) ⊎ (t'.local_seq ≡ u32 (t.local_seq + length bytes)))
  unfolding receive_bytes write_data
  grown t bytes tr = ground arith

  ended :
      (t : TcpSession) (tr : Trace)
      → let t' = (receive_eof k t tr).0 in
        (t'.acked ≡ t.acked)
        × (t'.send_window ≡ t.send_window)
        × ((t'.local_seq ≡ t.local_seq) ⊎ (t'.local_seq ≡ u32 (t.local_seq + 1)))
  unfolding receive_eof write_fin_ack write_rst
  ended t tr = ground arith

  -- What is sent to the client and not acknowledged fits in the client's window after the event
  -- if it did before, where `recv` returns no more than it is asked for and the end of the window
  -- is below 2 ^ 31 - 1.
  pub receive_data-window :
      (sock : ℕ) (ev : Events) (s : TcpNode) (tr : Trace)
      → s.tcp.acked ≤ s.tcp.local_seq
      → s.tcp.local_seq < s.tcp.acked + s.tcp.send_window + 1
      → s.tcp.acked + s.tcp.send_window < 2147483647
      → let t = (receive_data k sock ev s tr).0.tcp in
        (t.acked ≡ s.tcp.acked)
        × ((t.acked ≤ t.local_seq) × (t.local_seq ≤ t.acked + t.send_window))
  unfolding receive_data write_rst
  receive_data-window sock ev s tr a l h =
      let now = k.now tr in
      let t : TcpSession = record (s.tcp) { time = now } in
      ground (
        arith,
        read_size-le t,
        get_send_window_lem s.tcp,
        get_send_window_lem t,
        ended t,
        grown t,
        obeys (time ∷ tr) sock (read_size k t),
      )
