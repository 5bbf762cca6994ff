-- ===== src/Text.antt =====
-- Go strings as lists of bytes, and what the program uses of Go's `strings`, `unicode` and
-- `unicode/utf8`.
pub mod Bytes
pub mod Split
pub mod Utf8
pub mod Unicode
