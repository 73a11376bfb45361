-- ===== src/Text.antt =====
-- `&str` and `String` as lists of code points, with the methods of the standard library that the
-- program calls: `==`, `len`, `strip_prefix`, `ends_with`, `contains`, `split_once`, `trim`,
-- `to_lowercase`. `Bytes` is a list of bytes.
mod Defs
pub mod Laws
pub mod Numbers
pub mod Digits
pub mod Utf8
pub mod Lines
unfoldable pub use Defs.*
