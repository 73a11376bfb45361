-- ===== src/Setup.antt =====
-- init.rs: the command that writes a server's configuration and installs the service.
pub mod Token
pub mod Template
pub mod Defs
pub mod Steps
pub mod Run
pub mod Laws
pub mod Written
pub mod Document
pub mod Loaded
pub mod Plain
pub mod Tests
