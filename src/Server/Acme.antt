-- ===== src/Server/Acme.antt =====
-- server/acme.rs: the store of challenges and the client that orders certificates.
pub mod Store
pub mod Client
pub mod Laws
pub mod Renewal
pub mod Account
pub mod Files
pub mod Tests
