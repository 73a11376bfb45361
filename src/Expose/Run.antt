-- ===== src/Expose/Run.antt =====
-- expose/mod.rs: the loop of `run` that connects again, and the names of `generate_subdomain`.
pub mod Defs
pub mod Retries
pub mod Names
pub mod Command
pub mod Connects
mod Tests
