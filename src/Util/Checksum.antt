-- ===== src/Util/Checksum.antt =====
-- `calc_checksum` of tun2http/util.c: the Internet checksum over a buffer of bytes.
mod Defs
mod Law
unfoldable pub use Defs.*
pub use Law.*
