-- ===== src/RoundTrip.antt =====
-- What src/decompress/mod.rs makes of the streams that src/compress/mod.rs writes.
pub mod Align
pub mod Block
pub mod Stream
pub mod Written
pub mod Level0
pub mod Encoder
pub mod Zlib
pub mod Gzip
