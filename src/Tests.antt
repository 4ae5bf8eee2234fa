-- ===== src/Tests.antt =====
-- Runs of the model at concrete inputs: a kernel that does what it is asked, and sessions of one client.
mod World
mod Tcp
mod Queue
mod Formats
mod Sessions
mod Loop
mod Stream
