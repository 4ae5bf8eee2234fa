-- ===== src/Session.antt =====
-- The list of sessions and the passes over it that `handle_events` of tun2http/session.c makes.
pub mod Count
pub mod Pass
pub mod Allowed
pub mod Clear
pub mod Ends
pub mod Tun
pub mod Events
pub mod Round
pub mod Watch
pub mod Stop
pub mod Idle
