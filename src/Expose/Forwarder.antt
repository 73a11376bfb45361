-- ===== src/Expose/Forwarder.antt =====
-- expose/forwarder.rs: a request that comes through the tunnel, forwarded to the local server.
pub mod Defs
pub mod Copying
pub mod Rewriting
