-- ===== src/Tcp/Machine.antt =====
-- The TCP state machine of the relay as a step relation, and the proof that the code follows it.
pub mod Edges
pub mod Follows
pub mod Sockets
pub mod Life
