-- ===== src/Cli.antt =====
-- The client's commands: client_config.rs, test.rs, login.rs, status.rs and the log level of main.rs.
pub mod Credentials
pub mod Check
pub mod Login
pub mod Test
pub mod Main
pub mod Status
