-- ===== src/Tcp/Machine/Follows.antt =====
-- The operations of tun2http/tcp.c change the state as the tables say.
use nroxy.Prelude.{ℕ, ◌≡◌, ◌⊎◌, Bool, true, false, ◌||◌, none, List, ◌∷◌, arith, if◌then◌else◌}
use nroxy.Os.{Kernel, Trace, time}
use nroxy.Net.Session.{TcpSession, TcpNode, is_over, is_close, close, closing}
use nroxy.Tcp.Header.{TcpHdr}
use nroxy.Tcp.Write.{write_rst}
use nroxy.Tcp.Check.{check_tcp_session}
use nroxy.Tcp.Queue.{queue_tcp}
use nroxy.Tcp.Handle.Known.{touched, handle_known, handle_flags, segment_in_order, other_ack}
use nroxy.Timeout.{get_tcp_timeout, has_expired}
use nroxy.Tcp.Machine.Edges.{is_client_move}

module _ (k : Kernel) where
  pub write_rst-state :
      (t : TcpSession) (tr : Trace)
      → (write_rst k t tr).0.state ≡ (if is_close t.state then close else closing)
  unfolding write_rst
  write_rst-state t tr = ground arith

  segment_in_order-move :
      (h : TcpHdr) (t : TcpSession) (tr : Trace)
      → is_client_move t.state (segment_in_order k h t tr).0.state ≡ true
  unfolding segment_in_order
  segment_in_order-move h t tr = ground arith

  other_ack-move :
      (h : TcpHdr) (s : TcpNode) (tr : Trace)
      → is_client_move s.tcp.state (other_ack k h s tr).0.state ≡ true
  unfolding other_ack
  other_ack-move h s tr = ground arith

  handle_flags-move :
      (h : TcpHdr) (s : TcpNode) (tr : Trace)
      → is_over s.tcp.state ≡ false
      → is_client_move s.tcp.state (handle_flags k h s tr).0.state ≡ true
  unfolding handle_flags
  handle_flags-move h s tr open_state =
      ground (arith, segment_in_order-move h s.tcp tr, other_ack-move h s tr)

  pub queue_tcp-state :
      (seq : ℕ) (psh : Bool) (bytes : List ℕ) (n : ℕ) (t : TcpSession)
      → (queue_tcp seq psh bytes n t).state ≡ t.state
  unfolding queue_tcp
  queue_tcp-state seq psh bytes n t = ground arith

  -- A segment changes the state of a session as its table says, and never into a state in which
  -- the socket is closed.
  pub handle_known-move :
      (h : TcpHdr) (bytes : List ℕ) (n : ℕ) (s : TcpNode) (tr : Trace)
      → is_client_move s.tcp.state (handle_known k h bytes n s tr).0.state ≡ true
  unfolding handle_known
  handle_known-move h bytes n s tr =
      let t = touched h (k.now tr) s.tcp in
      let queued = queue_tcp h.seq h.psh bytes n t in
      ground (
        arith,
        write_rst-state s.tcp tr,
        write_rst-state t (time ∷ tr),
        handle_flags-move h (record s { tcp = t }) (time ∷ tr),
        handle_flags-move h (record s { tcp = queued }) (time ∷ tr),
        queue_tcp-state h.seq h.psh bytes n t,
      )

  -- A check puts a session that is over or has expired into CLOSE, and leaves the state of the
  -- others; a session that comes into CLOSE by it has no socket.
  pub check_tcp_session-state :
      (s : TcpNode) (sessions maxsessions : ℕ) (tr : Trace)
      → let timeout = get_tcp_timeout s.tcp sessions maxsessions in
        let s' = (check_tcp_session k s sessions maxsessions tr).0.0 in
        (s'.tcp.state ≡ (
          if is_over s.tcp.state || has_expired s.tcp.time timeout (k.now tr)
          then close
          else s.tcp.state))
        × ((is_close s.tcp.state ≡ true) ⊎ ((is_close s'.tcp.state ≡ false) ⊎ (s'.socket ≡ none)))
  unfolding check_tcp_session
  check_tcp_session-state s sessions maxsessions tr = ground arith
