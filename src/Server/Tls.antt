-- ===== src/Server/Tls.antt =====
-- server/tls.rs: the certificates of the server.
pub mod Defs
pub mod Laws
pub mod Restart
pub mod Requests
pub mod Tests
