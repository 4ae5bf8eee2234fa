-- ===== src/Tcp/Check.antt =====
-- `check_tcp_session` of tun2http/tcp.c: the periodic check of one session.
use nroxy.Prelude.{ℕ, ◌+◌, Bool, ◌&&◌, not, none, some, ltb, if◌then◌else◌}
use nroxy.Prelude.Int.{ℤ}
use nroxy.Os.{Kernel, M, pure, ◌>>=◌, ◌>>◌, get_time, log_call, close as close_call}
use nroxy.Net.Session.{
  TcpSession, TcpNode, closing, close, is_listen, is_closing, is_close, is_over,
}
use nroxy.Timeout.{get_tcp_timeout, has_expired}
use nroxy.Tcp.Write.{write_rst}

module _ (k : Kernel) where
  -- Check session timeout.
  unfoldable pub expire_tcp : TcpSession → ℤ → ℕ → M TcpSession
  unfolding write_rst has_expired
  expire_tcp t timeout now =
      if not (is_over t.state) && has_expired t.time timeout now
      then (if is_listen t.state then pure (record t { state = closing }) else write_rst k t)
      else pure t

  -- Check closing sessions.
  unfoldable pub finish_tcp : TcpNode → M TcpNode
  finish_tcp s =
      if is_closing s.tcp.state
      then (do
        elim s.socket [ none ↦ pure tt | some sock ↦ log_call (close_call sock) ]
        now ← get_time k
        pure (record s { socket = none; tcp = record (s.tcp) { time = now; state = close } }))
      else pure s

  -- The result is whether the session is to be deleted.
  unfoldable pub check_tcp_session : TcpNode → ℕ → ℕ → M (TcpNode × Bool)
  unfolding expire_tcp finish_tcp get_tcp_timeout
  check_tcp_session s sessions maxsessions = do
    now ← get_time k
    t ← expire_tcp (s.tcp) (get_tcp_timeout s.tcp sessions maxsessions) now
    s' ← finish_tcp (record s { tcp = t })
    let t' = if is_over s'.tcp.state then record (s'.tcp) { sent = 0; received = 0 } else s'.tcp
    pure (record s' { tcp = t' }, is_close t'.state && ltb (t'.time + 300) now)
