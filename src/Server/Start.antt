-- ===== src/Server/Start.antt =====
-- server/mod.rs: `run`, from the configuration to the servers that listen, and how it ends. Listeners,
-- tasks and signals are named by what they are started with.
pub mod Defs
pub mod Laws
pub mod Tests
