-- ===== src/File.antt =====
-- Readers of the files that SPEC writes.
pub mod Block
pub mod Index
pub mod Save
pub mod Update
