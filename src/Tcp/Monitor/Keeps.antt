-- ===== src/Tcp/Monitor/Keeps.antt =====
-- What the monitoring of tun2http/tcp.c keeps of a session.
use nroxy.Prelude.{ℕ, ◌<◌, ◌≡◌, true, arith}
use nroxy.Os.{Kernel, Trace}
use nroxy.Net.Session.{TcpSession, TcpNode}
use nroxy.Tcp.Write.{write_ack}
use nroxy.Tcp.Monitor.{events_eq, monitor_input, wanted_events, monitor_tcp_session}

abbrev pub Same : TcpSession → TcpSession → Type 0
Same t t' =
    (t'.remote_seq ≡ t.remote_seq)
    × (t'.local_seq ≡ t.local_seq)
    × (t'.acked ≡ t.acked)
    × (t'.forward ≡ t.forward)

module _ (k : Kernel) where
  monitor_input-Same :
      (t : TcpSession) (tr : Trace) → t.remote_seq < 4294967296 → Same t (monitor_input k t tr).0.2
  unfolding monitor_input write_ack
  monitor_input-Same t tr h = ground arith

  wanted_events-Same :
      (s : TcpNode) (tr : Trace)
      → s.tcp.remote_seq < 4294967296
      → Same s.tcp (wanted_events k s tr).0.2
  unfolding wanted_events
  wanted_events-Same s tr h = ground (arith, monitor_input-Same s.tcp tr h)

  -- Monitoring keeps the numbers, the queue and the socket of the session, also where it writes a
  -- keep-alive with an old number; and the events that the session is registered for are those
  -- that it wants.
  pub monitor_tcp_session_keeps :
      (sock : ℕ) (s : TcpNode) (tr : Trace)
      → s.tcp.remote_seq < 4294967296
      → let s' = (monitor_tcp_session k sock s tr).0.0 in
        (Same s.tcp s'.tcp)
        × ((s'.socket ≡ s.socket) × (events_eq (wanted_events k s tr).0.0 s'.events ≡ true))
  unfolding monitor_tcp_session
  monitor_tcp_session_keeps sock s tr h = ground (arith, wanted_events-Same s tr h)
