-- ===== src/Tls.antt =====
-- The search for the server's name in a TLS client hello, tun2http/tls.c.
mod Defs
pub mod Safe
pub mod Steps
pub mod Extensions
pub mod Reads
unfoldable pub use Defs.*
