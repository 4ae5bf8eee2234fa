-- ===== src/Tcp/Machine/Edges.antt =====
-- The changes of state that a call on a session of tun2http/tcp.c may make, as tables.
use nroxy.Prelude.{Bool, true, false, ◌&&◌, ◌||◌, not}
use nroxy.Net.Session.{
  TcpState, zeroed, established, syn_sent, syn_recv, fin_wait1, fin_wait2, time_wait, close,
  close_wait, last_ack, listen, closing, is_close, is_listen, TcpSession,
}
use nroxy.Tcp.Handle.{is_not_sent}

-- The states in which the session's socket is closed for good.
abbrev pub is_shut : TcpState → Bool
is_shut close = true
is_shut fin_wait1 = true
is_shut last_ack = true
is_shut _ = false

abbrev pub is_same : TcpState → TcpState → Bool
is_same zeroed zeroed = true
is_same established established = true
is_same syn_sent syn_sent = true
is_same syn_recv syn_recv = true
is_same fin_wait1 fin_wait1 = true
is_same fin_wait2 fin_wait2 = true
is_same time_wait time_wait = true
is_same close close = true
is_same close_wait close_wait = true
is_same last_ack last_ack = true
is_same listen listen = true
is_same closing closing = true
is_same _ _ = false

-- A segment of the client: the acknowledgement of the SYN, its FIN before and after the server's, and a
-- reset from either side.
abbrev pub is_client_move : TcpState → TcpState → Bool
is_client_move close b = is_close b
is_client_move _ closing = true
is_client_move syn_recv established = true
is_client_move established close_wait = true
is_client_move fin_wait1 close = true
is_client_move a b = is_same a b

-- An event of the server's socket: the connection or the tunnel, the server's end before and after the
-- client's FIN, and a reset.
abbrev pub is_server_move : TcpState → TcpState → Bool
is_server_move close b = is_close b
is_server_move _ closing = true
is_server_move listen syn_recv = true
is_server_move established fin_wait1 = true
is_server_move close_wait last_ack = true
is_server_move a b = is_same a b

-- The monitoring: a reset where a write fails.
abbrev pub is_watch_move : TcpState → TcpState → Bool
is_watch_move close b = is_close b
is_watch_move _ closing = true
is_watch_move a b = is_same a b

-- The four kinds of calls on a session.
pub data Call : Type 0 where
  of_client of_server of_clock of_watch : Call

-- Whether a call may leave a session in a state. The CONNECT to the proxy, which a segment of the client
-- triggers, puts a session for which it was not sent back into LISTEN.
abbrev pub may_move : Call → TcpSession → TcpState → Bool
may_move of_client t b =
    is_client_move t.state b
    || ((is_not_sent t.connect_sent && not (is_shut t.state)) && is_listen b)
may_move of_server t b = is_server_move t.state b
may_move of_clock t b = is_close b || is_same t.state b
may_move of_watch t b = is_watch_move t.state b
