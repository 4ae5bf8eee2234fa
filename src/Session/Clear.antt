-- ===== src/Session/Clear.antt =====
-- `clear` of tun2http/session.c: the sockets of all sessions are closed, and the list is empty.
use nroxy.Prelude.{ℕ, Option, none, some, List, [], ◌∷◌}
use nroxy.Os.{M, pure, ◌>>◌, log_call, close}
use nroxy.Net.Session.{NgSession, icmp_session, udp_session, tcp_session}

abbrev pub socket_of : NgSession → Option ℕ
socket_of (icmp_session s) = s.socket
socket_of (udp_session s) = s.socket
socket_of (tcp_session s) = s.socket

unfoldable pub clear : List NgSession → M (List NgSession)
clear [] = pure []
clear (s ∷ rest) = do
  elim (socket_of s) [ none ↦ pure tt | some sock ↦ log_call (close sock) ]
  clear rest
