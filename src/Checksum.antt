-- ===== src/Checksum.antt =====
-- src/checksum: the checksums of the zlib and gzip trailers.
pub mod Adler32
pub mod Crc32
