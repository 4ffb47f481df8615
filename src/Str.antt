-- ===== src/Str.antt =====
-- What the adapter uses of Rust's `str`: UTF-8, trimming, and decimal numbers. A `str` is the list
-- of its code points, or of its bytes where the source slices by bytes.
pub mod Utf8
pub mod Trim
pub mod Decimal
pub mod Hex
