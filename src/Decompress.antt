-- ===== src/Decompress.antt =====
-- src/decompress/mod.rs: whole-buffer decompression.
pub mod Refill
pub mod Tables
pub mod State
pub mod Output
pub mod Inflate
pub mod Wrapper
pub mod Gzip
