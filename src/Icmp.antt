-- ===== src/Icmp.antt =====
-- The relay of ICMP echoes of tun2http/icmp.c.
pub mod Packet
pub mod Check
pub mod Handle
pub mod Rewrite
