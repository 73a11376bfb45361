-- ===== src/Expose/Client.antt =====
-- expose/client.rs: the client's side of the registration.
pub mod Defs
pub mod Handshake
