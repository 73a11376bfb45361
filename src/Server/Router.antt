-- ===== src/Server/Router.antt =====
-- server/router.rs: what the server answers to a request.
pub mod Defs
pub mod Subdomain
pub mod Handling
pub mod Admin
pub mod Routes
pub mod Tests
