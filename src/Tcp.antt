-- ===== src/Tcp.antt =====
-- The TCP relay of tun2http/tcp.c.
pub mod Packet
pub mod Write
pub mod Window
pub mod Queue
pub mod Check
pub mod Monitor
pub mod Socket
pub mod Header
pub mod Open
pub mod Handle
pub mod Machine
pub mod Stream
