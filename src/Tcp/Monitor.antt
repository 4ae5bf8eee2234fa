-- ===== src/Tcp/Monitor.antt =====
-- `monitor_tcp_session` of tun2http/tcp.c: which events of its socket a session waits for.
pub mod Keeps
use nroxy.Prelude.{
  ℕ, ◌+◌, Bool, true, false, ◌&&◌, not, Option, [], ◌∷◌, ltb, ◌==◌, if◌then◌else◌, u32, sub_u32,
}
use nroxy.Os.{Kernel, M, pure, ◌>>=◌, ◌>>◌, Events, get_ms, epoll_mod}
use nroxy.Net.Session.{
  TcpSession, TcpNode, Segment, ConnectSent, request_sent, closing, is_listen, is_open,
}
use nroxy.Tcp.Write.{write_ack}
use nroxy.Tcp.Window.{get_send_window, get_receive_buffer}

abbrev pub is_request_sent : ConnectSent → Bool
is_request_sent request_sent = true
is_request_sent _ = false

abbrev pub error_only : Events
error_only = record { input = false; output = false; error = true }

abbrev bool_eq : Bool → Bool → Bool
bool_eq true b = b
bool_eq false b = not b

abbrev pub events_eq : Events → Events → Bool
events_eq a b = bool_eq a.input b.input && bool_eq a.output b.output && bool_eq a.error b.error

-- The test by which a segment may be sent: it comes next, and fits into the buffer.
abbrev pub can_forward : TcpSession → Segment → ℕ → Bool
can_forward t s buffer_size =
    u32 (s.seq + s.sent) == t.remote_seq && ltb (sub_u32 s.len s.sent) buffer_size

module _ (k : Kernel) where
  -- Check for incoming data: the events, the recheck flag and the session. Where the client's
  -- window is closed, an acknowledgement of an old number makes the client report its window.
  unfoldable pub monitor_input : TcpSession → M (Events × Bool × TcpSession)
  unfolding write_ack
  monitor_input t =
      if ltb 0 (get_send_window t)
      then pure (record error_only { input = true }, false, t)
      else λ tr.
          let ms = k.milliseconds tr in
          let asked = get_ms ∷ tr in
          if ltb (t.last_keep_alive + 100) ms
          then (do
            (t', _) ←
                write_ack k (record t { last_keep_alive = ms; remote_seq = sub_u32 t.remote_seq 1 })
            pure (error_only, true, record t' { remote_seq = u32 (t'.remote_seq + 1) }))
              asked
          else ((error_only, true, t), asked)

  -- Check for outgoing data.
  unfoldable pub monitor_output : Option ℕ → TcpSession → Events → Bool → M (Events × Bool)
  unfolding get_receive_buffer
  monitor_output socket t events recheck = elim t.forward [
    | [] ↦ pure (events, recheck)
    | s ∷ _ ↦ (do
      buffer ← get_receive_buffer k socket
      pure (
          if can_forward t s (u32 buffer)
          then (record events { output = true }, recheck)
          else (events, true)))
  ]

  unfoldable pub wanted_events : TcpNode → M (Events × Bool × TcpSession)
  unfolding monitor_input monitor_output
  wanted_events s =
      if is_listen s.tcp.state
      then pure (
        if is_request_sent s.tcp.connect_sent && s.tcp.dest == 443
            then record error_only { input = true }
            else record error_only { output = true },
        false,
        s.tcp,
      )
      else if is_open s.tcp.state
      then (do
        (events, recheck, t) ← monitor_input s.tcp
        (events', recheck') ← monitor_output s.socket t events recheck
        pure (events', recheck', t))
      else pure (error_only, false, s.tcp)

  -- The result is whether to check again soon.
  unfoldable pub monitor_tcp_session : ℕ → TcpNode → M (TcpNode × Bool)
  unfolding wanted_events
  monitor_tcp_session sock s = do
    (events, recheck, t) ← wanted_events s
    λ tr. if events_eq events s.events then ((record s { tcp = t }, recheck), tr) else (
      (
        record s {
          events = events;
          tcp = if k.modifies tr sock events then t else record t { state = closing };
        },
        recheck,
      ),
      epoll_mod sock events ∷ tr,
    )
