-- ===== src/Net.antt =====
-- The network formats that the parts of tun2http share.
pub mod Bytes
pub mod Session
pub mod Sums
pub mod Slices
