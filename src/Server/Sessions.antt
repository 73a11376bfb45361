-- ===== src/Server/Sessions.antt =====
-- The server as a whole: what connections, visitors, the admin API and the cleanup task do to the
-- registry, in any order.
pub mod Defs
pub mod Entries
pub mod Invariant
pub mod Order
pub mod Replaced
mod Tests
