-- ===== src/Server.antt =====
-- The tunnel server: server/*.rs.
pub mod Tunnel
pub mod Registry
pub mod Config
pub mod Proxy
pub mod Acme
pub mod Tls
pub mod Router
pub mod Handler
pub mod Cleanup
pub mod Start
pub mod Sessions
pub mod Compat
