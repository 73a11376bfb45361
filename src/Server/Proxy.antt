-- ===== src/Server/Proxy.antt =====
-- server/proxy.rs: one request carried through a tunnel.
pub mod Types
pub mod Defs
pub mod Heads
pub mod Reading
pub mod Outcome
pub mod Tests
