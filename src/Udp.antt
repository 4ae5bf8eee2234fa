-- ===== src/Udp.antt =====
-- The UDP relay of tun2http/udp.c.
pub mod Packet
pub mod Check
pub mod Socket
pub mod Handle
pub mod Life
