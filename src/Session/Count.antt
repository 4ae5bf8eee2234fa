-- ===== src/Session/Count.antt =====
-- Counting sessions, in `handle_events` of tun2http/session.c.
use nroxy.Prelude.{ℕ, ◌+◌, ◌*◌, ◌/◌, Bool, not, List, [], ◌∷◌, ltb, if◌then◌else◌}
use nroxy.Net.Session.{NgSession, icmp_session, udp_session, tcp_session, is_over}
use nroxy.Udp.Check.{is_active}

-- Whether the session is counted.
abbrev pub is_live : NgSession → Bool
is_live (icmp_session s) = not s.icmp.stop
is_live (udp_session s) = is_active s.udp.state
is_live (tcp_session s) = not (is_over s.tcp.state)

unfoldable pub count_sessions : List NgSession → ℕ
count_sessions [] = 0
count_sessions (s ∷ rest) = (if is_live s then 1 else 0) + count_sessions rest

-- `maxsessions`: forty percent of the file limit, and at most 1000.
unfoldable pub max_sessions : ℕ → ℕ
max_sessions rlim_cur = let share = rlim_cur * 40 / 100 in if ltb 1000 share then 1000 else share
