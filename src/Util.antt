-- ===== src/Util.antt =====
-- The helpers of tun2http/util.c.
pub mod Checksum
pub mod Serial
pub mod Text
