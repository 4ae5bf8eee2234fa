-- ===== src/Session/Pass.antt =====
-- The passes over the sessions in `handle_events` of tun2http/session.c: monitoring the sockets, and
-- checking and deleting sessions.
use nroxy.Prelude.{ℕ, Bool, false, ◌&&◌, ◌||◌, not, none, some, List, [], ◌∷◌, ltb, if◌then◌else◌}
use nroxy.Prelude.Int.{ℤ, pos, negsuc, ◌+ℤ◌, ◌-ℤ◌}
use nroxy.Os.{Kernel, M, pure, ◌>>=◌}
use nroxy.Net.Session.{NgSession, icmp_session, udp_session, tcp_session}
use nroxy.Timeout.{get_tcp_timeout, get_udp_timeout, get_icmp_timeout}
use nroxy.Tcp.Monitor.{monitor_tcp_session}
use nroxy.Tcp.Check.{check_tcp_session}
use nroxy.Udp.Check.{check_udp_session}
use nroxy.Icmp.Check.{check_icmp_session}
use nroxy.Session.Count.{is_live}

-- How long a session may be left alone: `time + timeout - now + 1`.
unfoldable pub session_timeout : NgSession → ℕ → ℕ → ℕ → ℤ
session_timeout (icmp_session s) sessions maxsessions now =
    pos s.icmp.time +ℤ get_icmp_timeout s.icmp sessions maxsessions -ℤ pos now +ℤ pos 1
session_timeout (udp_session s) sessions maxsessions now =
    pos s.udp.time +ℤ get_udp_timeout s.udp sessions maxsessions -ℤ pos now +ℤ pos 1
session_timeout (tcp_session s) sessions maxsessions now =
    pos s.tcp.time +ℤ get_tcp_timeout s.tcp sessions maxsessions -ℤ pos now +ℤ pos 1

-- `if (stimeout > 0 && stimeout < timeout) timeout = stimeout;`
abbrev pub shorten : ℤ → ℕ → ℕ
shorten (pos stimeout) timeout =
    if ltb 0 stimeout && ltb stimeout timeout then stimeout else timeout
shorten (negsuc _) timeout = timeout

module _ (k : Kernel) where
  -- The result is whether to check again soon.
  unfoldable pub monitor_sessions : List NgSession → M (List NgSession × Bool)
  monitor_sessions [] = pure ([], false)
  monitor_sessions (tcp_session s ∷ rest) = elim s.socket [
    | none ↦ (do (rest', recheck) ← monitor_sessions rest; pure (tcp_session s ∷ rest', recheck))
    | some sock ↦ (do
      (s', soon) ← monitor_tcp_session k sock s
      (rest', recheck) ← monitor_sessions rest
      pure (tcp_session s' ∷ rest', soon || recheck))
  ]
  monitor_sessions (s ∷ rest) = do
    (rest', recheck) ← monitor_sessions rest
    pure (s ∷ rest', recheck)

  -- The check of one session, by its protocol; the result is whether it is to be deleted.
  unfoldable pub check_session : ℕ → ℕ → NgSession → M (NgSession × Bool)
  check_session sessions maxsessions (icmp_session s) = do
    (s', del) ← check_icmp_session k s sessions maxsessions
    pure (icmp_session s', del)
  check_session sessions maxsessions (udp_session s) = do
    (s', del) ← check_udp_session k s sessions maxsessions
    pure (udp_session s', del)
  check_session sessions maxsessions (tcp_session s) = do
    (s', del) ← check_tcp_session k s sessions maxsessions
    pure (tcp_session s', del)

  -- The sessions that are left, and how long the loop may wait.
  unfoldable pub check_sessions : ℕ → ℕ → ℕ → List NgSession → ℕ → M (List NgSession × ℕ)
  check_sessions sessions maxsessions now [] timeout = pure ([], timeout)
  check_sessions sessions maxsessions now (s ∷ rest) timeout = do
    (s', del) ← check_session sessions maxsessions s
    let timeout' =
        if is_live s' && not del
        then shorten (session_timeout s' sessions maxsessions now) timeout
        else timeout
    (rest', left) ← check_sessions sessions maxsessions now rest timeout'
    pure (if del then rest' else s' ∷ rest', left)
