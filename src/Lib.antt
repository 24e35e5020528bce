-- ===== src/Lib.antt =====
-- zenflate: DEFLATE, zlib and gzip compression and decompression in Rust.
--
-- The parts of the program that are modelled, and how they interact. The compressor (src/compress)
-- writes bit fields to an output bit stream, or whole stored blocks at level 0. The decompressor
-- (src/decompress/mod.rs) refills a bit buffer from its input, builds decode tables from the code
-- lengths of a block, and writes literals and match copies to its output. The zlib and gzip wrappers
-- put a header before a stream and an Adler-32 or CRC-32 checksum (src/checksum) behind it.
--
--   Outcome       src/error.rs: the errors; a call's result is a value, an error, a panic (an index
--                 out of bounds), or out of fuel, which no value of the source stands for.
--   Checksum      src/checksum without its `simd` feature. Adler32 is adler32.rs: `adler32`,
--                 `adler32_combine`, `Adler32Hasher`. Crc32 is crc32.rs and tables.rs: the table,
--                 `crc32`, `crc32_combine`, `Crc32Hasher`.
--   Bitstream     src/compress/bitstream.rs: `OutputBitstream`, a method for a function.
--   Decompress    src/decompress/mod.rs. Refill is `refill_bits` and `refill_bits_fast`; Tables is
--                 `build_decode_table` and the result tables; State is `Decompressor` and the local
--                 variables of the decode loop, with the actions on them; Output is the literal and
--                 match copies; Inflate is `deflate_decompress_core_impl`, one file for each kind of
--                 block and each decode loop; Wrapper is `deflate_decompress` and `zlib_decompress`, and
--                 Gzip is `gzip_decompress`.
--   Compress      src/compress/mod.rs: the size bounds and `zlib_header`; Stored is
--                 `deflate_compress_none` and `deflate_compress_none_chunk`; Limits is the choice
--                 of match lengths and block ends; Wrapped is `zlib_compress` and `gzip_compress`
--                 around any `deflate_compress`; BlockSplit is src/compress/block_split.rs; Huffman
--                 is src/compress/huffman.rs: Tree is `build_tree` and `compute_length_counts`, Make is
--                 `sort_symbols`, `gen_codewords` and `make_huffman_code`. Precode is the items of the
--                 codeword lengths in src/compress/block.rs, Slots the slots of lengths and offsets
--                 there, and Block the codes of a block and the header of a dynamic block.
--   MatchFinder   src/matchfinder/mod.rs: `lz_extend_word`, the extension of a match.
--   RoundTrip     the decoder on stored blocks, and on those that level 0 writes. Encoder is what the
--                 wrappers ask of a compressor, a record of the call and its law, with level 0 as an
--                 instance; Zlib and Gzip are the wrappers on both sides.
--   Examples      the theorems at concrete inputs.
--   Prelude       lists, tests, bits and words over the native numbers.
--
-- A u32 or u64 is a native number with its wrap-around written out; a slice that is written in
-- place is a list of fixed length. The width of a usize is an argument of the `combine` of the two
-- hashers, which casts a u64 to it. `stop` is a function of the number of the call, since the crate `enough` is not part of
-- the repository.
--
-- Fuel. A loop of the source that is not structural takes a number of rounds: `refill_bits` 7,
-- since a round adds 8 bits; the byte loop of `flush_bits` as many as there are bits; a chunk or
-- block loop as many as there are bytes left, since a round takes one; the block loop of the
-- decoder 8 * length + 65, since a block takes three bits and a refill gives eight virtual bytes
-- at most; the item loops as many as the output has bytes, and one, since an item writes a byte
-- at least; the loops of a match copy and of a gzip text as many as there are bytes, and one;
-- the loop of `input_block_end` as many as there are bytes; the extension of a match one more
-- than its cap; the bits of a CRC-32 matrix product 32; the loop of `build_tree` as many as
-- there are symbols, since a round makes a node; the runs of the precode as many as there are
-- lengths. Where a loop of level 0, of the tables, of the items, of the copies, of a gzip text,
-- of a match, of the tree, of the precode or of the blocks would run out, the result is
-- `out_of_fuel`; the theorems that give a result show that it is not.
--
-- Not modelled: the streaming decoder and the scanner; src/compress/katajainen.rs; the costs and
-- the items of a block, the tables of the match finders and the search strategies of the
-- compressor; the PNG helpers; the SIMD variants of the checksums and of the extension of a
-- match, which are intrinsics of a target.
pub mod Prelude
pub mod MatchFinder
pub mod Outcome
pub mod Checksum
pub mod Bitstream
pub mod Compress
pub mod Decompress
pub mod RoundTrip
pub mod Examples
