-- ===== src/Server/Handler.antt =====
-- server/handler.rs: a client's connection, from the registration to its end.
pub mod Defs
pub mod Registration
pub mod Lifetime
mod Tests
