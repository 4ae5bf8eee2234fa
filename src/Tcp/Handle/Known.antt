-- ===== src/Tcp/Handle/Known.antt =====
-- The part of `handle_tcp` in tun2http/tcp.c that follows the TCP state machine: a segment for a
-- session whose tunnel stands.
use nroxy.Prelude.{
  ℕ, ◌+◌, ◌*◌, ◌^◌, Bool, true, false, ◌||◌, not, Option, none, some, List, ◌==◌, if◌then◌else◌,
  u32,
}
use nroxy.Os.{Kernel, M, pure, ◌>>=◌, ◌>>◌, get_time, log_call, keep_alive}
use nroxy.Net.Session.{
  TcpState, established, syn_recv, fin_wait1, close, close_wait, last_ack, closing, TcpSession,
  TcpNode, is_over, is_close_wait, is_established,
}
use nroxy.Util.Serial.{compare_u32}
use nroxy.Tcp.Header.{TcpHdr}
use nroxy.Tcp.Queue.{queue_tcp, is_neg}
use nroxy.Tcp.Window.{is_nonpos}
use nroxy.Tcp.Write.{write_ack, write_rst}
use nroxy.Tcp.Socket.Forward.{is_empty}

-- The state after an acknowledgement of all that was sent.
abbrev pub after_ack : TcpState → TcpState
after_ack syn_recv = established
after_ack last_ack = closing
after_ack s = s

-- The session's time and the client's window, from the segment.
abbrev pub touched : TcpHdr → ℕ → TcpSession → TcpSession
touched h now t = record t { time = now; send_window = u32 (h.window * 2 ^ t.send_scale) }

module _ (k : Kernel) where
  -- Acknowledge the FIN; the state changes if that could be written.
  unfoldable pub confirm_fin : TcpState → TcpSession → M TcpSession
  unfolding write_ack
  confirm_fin next t = do
    (t', written) ← write_ack k (record t { remote_seq = u32 (t.remote_seq + 1) })
    pure (if written then record t' { state = next } else t')

  unfoldable pub fin_in : TcpState → TcpSession → M TcpSession
  unfolding confirm_fin
  fin_in established t =
      if is_empty t.forward
      then confirm_fin close_wait t
      else pure (record t { state = close_wait })
  fin_in fin_wait1 t = confirm_fin close t
  fin_in _ t = pure t

  -- A segment that acknowledges all that was sent, or nothing.
  unfoldable pub segment_in_order : TcpHdr → TcpSession → M TcpSession
  unfolding fin_in
  segment_in_order h t =
      if h.syn
      then pure t
      else if h.fin
      then fin_in t.state t
      else if h.ack
      then pure (record t { acked = h.ack_seq; state = after_ack t.state })
      else pure t

  -- A segment that acknowledges something else.
  unfoldable pub other_ack : TcpHdr → TcpNode → M TcpSession
  unfolding write_rst
  other_ack h s =
      if u32 (h.ack_seq + 1) == s.tcp.local_seq
      then (elim s.socket [
        | some sock ↦
            (if is_established s.tcp.state
              then (log_call (keep_alive sock) >> pure s.tcp)
              else pure s.tcp)
        | none ↦ pure s.tcp
      ])
      else if is_neg (compare_u32 h.ack_seq s.tcp.local_seq)
      then pure (
          if is_nonpos (compare_u32 h.ack_seq s.tcp.acked)
          then s.tcp
          else record (s.tcp) { acked = h.ack_seq })
      else write_rst k s.tcp

  -- What follows the queueing of the data.
  unfoldable pub handle_flags : TcpHdr → TcpNode → M TcpSession
  handle_flags h s =
      if h.rst
      then pure (record (s.tcp) { state = closing })
      else if not h.ack || h.ack_seq == s.tcp.local_seq
      then segment_in_order h s.tcp
      else other_ack h s

  abbrev is_none : Option ℕ → Bool
  is_none none = true
  is_none (some _) = false

  unfoldable pub handle_known : TcpHdr → List ℕ → ℕ → TcpNode → M TcpSession
  handle_known h bytes datalen s = if is_over s.tcp.state then write_rst k s.tcp else (do
    now ← get_time k
    let t = touched h now s.tcp
    if datalen == 0
        then handle_flags h (record s { tcp = t })
        else if is_none s.socket || is_close_wait t.state
        then write_rst k t
        else handle_flags h (record s { tcp = queue_tcp h.seq h.psh bytes datalen t }))
