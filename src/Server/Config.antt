-- ===== src/Server/Config.antt =====
-- server/config.rs: the configuration, its sources and the checks of tokens.
pub mod Defs
pub mod Env
pub mod Toml
pub mod Tokens
pub mod Tests
