-- ===== src/Timeout.antt =====
-- The idle timeouts of tun2http/tcp.c, udp.c and icmp.c, in seconds.
pub mod Scale
use nroxy.Prelude.{ℕ, suc, ◌*◌, ◌/◌, Bool, ◌==◌, if◌then◌else◌}
use nroxy.Prelude.Int.{ℤ, pos, negsuc, sub_ℕ, ◌+ℤ◌, ◌-ℤ◌, ◌*ℤ◌, ltb_ℤ}
use nroxy.Net.Session.{TcpSession, UdpSession, IcmpSession, TcpState, listen, syn_recv, established}

-- Division of an `int` by a positive one: towards zero.
abbrev pub div_int : ℤ → ℕ → ℤ
div_int (pos n) d = pos (n / d)
div_int (negsuc n) d = sub_ℕ 0 (suc n / d)

-- `int scale = 100 - sessions * 100 / maxsessions; timeout * scale / 100`
unfoldable pub scale_timeout : ℕ → ℕ → ℕ → ℤ
unfolding ◌-ℤ◌ ◌*ℤ◌
scale_timeout timeout sessions maxsessions =
    div_int (pos timeout *ℤ (pos 100 -ℤ pos (sessions * 100 / maxsessions))) 100

abbrev pub base_tcp_timeout : TcpState → ℕ
base_tcp_timeout listen = 30
base_tcp_timeout syn_recv = 30
base_tcp_timeout established = 3600
base_tcp_timeout _ = 30

unfoldable pub get_tcp_timeout : TcpSession → ℕ → ℕ → ℤ
unfolding scale_timeout
get_tcp_timeout t sessions maxsessions =
    scale_timeout (base_tcp_timeout t.state) sessions maxsessions

unfoldable pub get_udp_timeout : UdpSession → ℕ → ℕ → ℤ
unfolding scale_timeout
get_udp_timeout u sessions maxsessions =
    scale_timeout (if u.dest == 53 then 15 else 300) sessions maxsessions

unfoldable pub get_icmp_timeout : IcmpSession → ℕ → ℕ → ℤ
unfolding scale_timeout
get_icmp_timeout u sessions maxsessions = scale_timeout 15 sessions maxsessions

-- `time + timeout < now` of three `time_t`.
unfoldable pub has_expired : ℕ → ℤ → ℕ → Bool
unfolding ◌+ℤ◌
has_expired time timeout now = ltb_ℤ (pos time +ℤ timeout) (pos now)
