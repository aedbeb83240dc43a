-- ===== src/Strings.antt =====
-- What the code uses of Rust's `str` and `format!`: decimal numbers, searching, trimming, hex, UTF-8.
pub mod Decimal
pub mod Search
pub mod Utf8
pub mod Trim
pub mod Hex
pub mod Slices
