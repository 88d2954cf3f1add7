-- ===== src/Net.antt =====
-- The reactor, include/net and src/net: one module for each class.
pub mod Channel
pub mod Poller
pub mod Connection
pub mod Loop
pub mod Pool
pub mod Server
pub mod Thread
mod Tests
