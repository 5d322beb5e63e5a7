-- ===== src/Bytes.antt =====
-- Byte strings: integers in a byte order, and UTF-8.
pub mod Words
pub mod Utf8
