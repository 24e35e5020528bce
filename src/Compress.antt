-- ===== src/Compress.antt =====
-- src/compress/mod.rs: the bounds on the size of a compressed stream, and the zlib header.
pub mod Stored
pub mod Header
pub mod Limits
pub mod Slots
pub mod Precode
pub mod Block
pub mod Wrapped
pub mod BlockSplit
pub mod Huffman
use zenflate.Prelude.{
  ℕ, ◌+◌, ◌-◌, ◌*◌, ◌/◌, ◌%◌, ◌^◌, max, ltb, ◌==◌, Bool, true, false, if◌then◌else◌,
}

-- `MIN_BLOCK_LENGTH`
abbrev pub min_block_length : ℕ
min_block_length = 5000

unfoldable pub deflate_compress_bound : ℕ → ℕ
deflate_compress_bound input_len =
    let max_blocks = max ((input_len + min_block_length - 1) / min_block_length) 1 in
    5 * max_blocks + input_len

unfoldable pub deflate_compress_segment_bound : ℕ → ℕ
unfolding deflate_compress_bound
deflate_compress_segment_bound input_len = deflate_compress_bound input_len + 6

unfoldable pub zlib_compress_bound : ℕ → ℕ
unfolding deflate_compress_bound
zlib_compress_bound input_len = deflate_compress_bound input_len + 2 + 4

unfoldable pub gzip_compress_bound : ℕ → ℕ
unfolding deflate_compress_bound
gzip_compress_bound input_len = deflate_compress_bound input_len + 10 + 8

-- `level_hint` of `zlib_header`
unfoldable pub level_hint : ℕ → ℕ
level_hint level =
    if ltb level 2 then 0 else if ltb level 6 then 1 else if ltb level 8 then 2 else 3

-- The two bytes; all the arithmetic stays below the width of its type.
unfoldable pub zlib_header : ℕ → ℕ × ℕ
unfolding level_hint
zlib_header level =
    let flg = level_hint level * 2 ^ 6 in
    let check = (0x78 * 256 + flg) % 31 in (0x78, if check == 0 then flg else flg + (31 - check))
