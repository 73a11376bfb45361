-- ===== src/Server/Compat.antt =====
-- server/compat.rs: a web socket as a stream of bytes.
pub mod Defs
pub mod Bytewise
pub mod End
pub mod Frames
mod Tests
