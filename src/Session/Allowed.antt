-- ===== src/Session/Allowed.antt =====
-- `check_allowed` of tun2http/session.c: every session is ended before the loop begins.
use nroxy.Prelude.{true, Option, none, some, List, [], ◌∷◌, if◌then◌else◌}
use nroxy.Os.{Kernel, M, pure, ◌>>=◌}
use nroxy.Net.Session.{NgSession, icmp_session, udp_session, tcp_session, finishing, is_over}
use nroxy.Udp.Check.{is_active, is_blocked}
use nroxy.Tcp.Write.{write_rst}

module _ (k : Kernel) where
  -- `none` is that the session is removed.
  unfoldable pub end_session : NgSession → M (Option NgSession)
  end_session (icmp_session s) =
      pure (some (icmp_session (record s { icmp = record (s.icmp) { stop = true } })))
  end_session (udp_session s) = pure (
      if is_active s.udp.state
      then some (udp_session (record s { udp = record (s.udp) { state = finishing } }))
      else if is_blocked s.udp.state
      then none
      else some (udp_session s))
  end_session (tcp_session s) =
      if is_over s.tcp.state
      then pure (some (tcp_session s))
      else (do t ← write_rst k s.tcp; pure (some (tcp_session (record s { tcp = t }))))

  unfoldable pub check_allowed : List NgSession → M (List NgSession)
  check_allowed [] = pure []
  check_allowed (s ∷ rest) = do
    ended ← end_session s
    rest' ← check_allowed rest
    pure (elim ended [ none ↦ rest' | some s' ↦ s' ∷ rest' ])
