-- ===== src/Ip.antt =====
-- The constants of tun2http/ip.c, and the IP headers that the writers of tcp.c, udp.c and icmp.c
-- build.
pub mod Header
pub mod Parse
pub mod Uid
use nroxy.Prelude.{ℕ, ◌-◌, ◌==◌, if◌then◌else◌, u16}

-- `MTU`
abbrev pub mtu : ℕ
mtu = 10000

unfoldable pub get_mtu : ℕ
get_mtu = mtu

unfoldable pub get_default_mss : ℕ → ℕ
unfolding get_mtu
get_default_mss version = if version == 4 then u16 (get_mtu - 20 - 20) else u16 (get_mtu - 40 - 20)
