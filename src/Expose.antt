-- ===== src/Expose.antt =====
-- The client that exposes a local server: expose/*.rs.
pub mod Reconnect
pub mod Forwarder
pub mod Client
pub mod Run
pub mod Stream
mod Tests
