-- ===== src/Udp/Check.antt =====
-- `check_udp_session` of tun2http/udp.c: the periodic check of one session.
use nroxy.Prelude.{ℕ, ◌+◌, Bool, true, false, ◌&&◌, ◌||◌, none, some, ltb, if◌then◌else◌}
use nroxy.Os.{Kernel, M, pure, ◌>>=◌, ◌>>◌, get_time, log_call, close as close_call}
use nroxy.Net.Session.{UdpState, active, finishing, closed, blocked, UdpNode}
use nroxy.Timeout.{get_udp_timeout, has_expired}

abbrev pub is_active : UdpState → Bool
is_active active = true
is_active _ = false

abbrev pub is_finishing : UdpState → Bool
is_finishing finishing = true
is_finishing _ = false

abbrev pub is_closed : UdpState → Bool
is_closed closed = true
is_closed _ = false

abbrev pub is_blocked : UdpState → Bool
is_blocked blocked = true
is_blocked _ = false

module _ (k : Kernel) where
  -- Check finished sessions.
  unfoldable pub finish_udp : UdpNode → M UdpNode
  finish_udp s =
      if is_finishing s.udp.state
      then (do
        elim s.socket [ none ↦ pure tt | some sock ↦ log_call (close_call sock) ]
        now ← get_time k
        pure (record s { socket = none; udp = record (s.udp) { time = now; state = closed } }))
      else pure s

  -- The result is whether the session is to be deleted.
  unfoldable pub check_udp_session : UdpNode → ℕ → ℕ → M (UdpNode × Bool)
  unfolding finish_udp
  check_udp_session s sessions maxsessions = do
    now ← get_time k
    let timeout = get_udp_timeout s.udp sessions maxsessions
    let expired = is_active s.udp.state && has_expired s.udp.time timeout now
    s' ← finish_udp (if expired then record s { udp = record (s.udp) { state = finishing } } else s)
    let u = if is_closed s'.udp.state then record (s'.udp) { sent = 0; received = 0 } else s'.udp
    pure (record s' { udp = u }, (is_closed u.state || is_blocked u.state) && ltb (u.time + 60) now)
