-- ===== src/Server/Registry.antt =====
-- server/registry.rs: the map from subdomains to tunnels, with validation and reserved names.
pub mod Defs
pub mod Validation
pub mod Numbered
pub mod Invariant
pub mod Order
pub mod View
pub mod Tests
unfoldable pub use Defs.*
