-- ===== src/Examples.antt =====
-- The theorems at concrete inputs, and small runs of the models.
mod Huffman
mod Checksums
mod Formats
mod Blocks
mod Copies
mod Matches
mod StoredBlocks
use zenflate.Prelude.{
  All, ℕ, ◌+◌, ◌*◌, ◌/◌, ◌%◌, ◌^◌, ◌≤◌, ◌<◌, Option, none, List, [], ◌∷◌, ◌++◌, length, take,
  get_or, true, false, arith, ◌≡◌, refl,
}
use zenflate.Prelude.Words.{IsByte, to_le_bytes, from_le_bytes}
use zenflate.Outcome.{ok, err, bad_data, insufficient_space}
use zenflate.Checksum.Adler32.{
  divisor, adler32, adler32_scalar, adler32_combine, combine, finish, new,
}
use zenflate.Checksum.Adler32.Chunk.{sum, weighted}
use zenflate.Checksum.Adler32.Scalar.{adler32_scalar-exact}
use zenflate.Checksum.Adler32.Combine.{adler32_combine_lem, feed, combine-feed}
use zenflate.Bitstream.{OutputBitstream, add_bits, flush_bits}
use zenflate.Bitstream.Value.{stream, size, IsValid}
use zenflate.Bitstream.Flush.{Done, Full, flush_bits-Done, flush_bits-Full}
use zenflate.Bitstream.Fields.{put_all, Written, put_all-Written, put_all-overflow}
use zenflate.Decompress.Refill.{BitReader, refill_bits, consume}
use zenflate.Decompress.Refill.Window.{Reads, refill_bits-Reads}
use zenflate.Decompress.Tables.{double_entry, add_double_literals}
use zenflate.Decompress.Tables.Doubles.{add_double_literals-from_old}
use zenflate.Decompress.State.{Run}
use zenflate.Decompress.State
use zenflate.Decompress.Inflate.{block, deflate_decompress_core, start}
use zenflate.Decompress.Wrapper.{zlib_header_ok}
use zenflate.Compress.{deflate_compress_bound, zlib_header}
use zenflate.Compress.Limits.{choose_max_block_end, choose_max_block_end_lem}
use mathlib.Core.Logic.{◌⊎◌}
use zenflate.Compress.Header.{zlib_header-accepted}
use zenflate.Compress.Stored.{block_header, deflate_compress_none, deflate_compress_none_chunk}
use zenflate.Compress.Stored.Blocks.{stored_stream, Wrote}
use zenflate.Compress.Stored.Level0.{
  chunks, deflate_compress_none_chunk-Wrote, deflate_compress_none_chunk-full,
  deflate_compress_none-bound,
}
use zenflate.RoundTrip.Align.{at_byte-Reads}
use zenflate.RoundTrip.Block.{flag, IsStoredBlock, stored, checked, block-stored}
use zenflate.RoundTrip.Level0.{deflate_decompress_core-stored, deflate_compress_none-round_trip}

abbrev go : ℕ → Option ℕ
go n = none

-- Level 0 and the decoder.
abbrev input : List ℕ
input = 104 ∷ 105 ∷ []

abbrev room : List ℕ
room = 0 ∷ 0 ∷ 0 ∷ 0 ∷ 0 ∷ 0 ∷ 0 ∷ []

deflate_compress_none-round_trip_example :
    (n : ℕ) × (written : List ℕ) × (s : Run) × (deflate_compress_none {R = ℕ} input room
      ≡ ok (n, written))
    × (deflate_decompress_core go (take n written ++ (9 ∷ [])) (start State.new (0 ∷ 0 ∷ []))
        ≡ (ok (n, 2), s))
    × (take 2 s.output ≡ input)
unfolding deflate_compress_bound State.new
deflate_compress_none-round_trip_example =
    deflate_compress_none-round_trip ℕ ℕ go input room (9 ∷ []) (0 ∷ 0 ∷ []) State.new (λ n. refl)
      (omega arith, (omega arith, tt)) (omega arith, tt) (omega arith) refl (omega arith)

deflate_compress_none_chunk-Wrote_example :
    (output : List ℕ) × (deflate_compress_none_chunk {R = ℕ} input room false
      ≡ ok (length (stored_stream false (chunks input)), output))
    × Wrote (stored_stream false (chunks input)) room 0 output
unfolding block_header
deflate_compress_none_chunk-Wrote_example =
    deflate_compress_none_chunk-Wrote ℕ input room false (omega arith)

deflate_compress_none_chunk-full_example :
    deflate_compress_none_chunk {R = ℕ} input (0 ∷ 0 ∷ []) true ≡ err insufficient_space
unfolding block_header
deflate_compress_none_chunk-full_example =
    deflate_compress_none_chunk-full ℕ input (0 ∷ 0 ∷ []) true (omega arith)

deflate_compress_none-bound_example :
    (output : List ℕ) × (deflate_compress_none {R = ℕ} input room
      ≡ ok (length (stored_stream true (chunks input)), output))
    × (take (length (stored_stream true (chunks input))) output ≡ stored_stream true (chunks input))
unfolding deflate_compress_bound
deflate_compress_none-bound_example = deflate_compress_none-bound ℕ input room (omega arith)

zlib_header-accepted_example : zlib_header_ok (zlib_header 6).0 (zlib_header 6).1 ≡ true
zlib_header-accepted_example = zlib_header-accepted 6

-- Adler-32.
adler32_scalar-exact_example :
    adler32_scalar 1 (97 ∷ 98 ∷ [])
    ≡ (1 % 2 ^ 16 + sum (97 ∷ 98 ∷ [])) % divisor
      + (1 / 2 ^ 16 + 2 * (1 % 2 ^ 16) + weighted (97 ∷ 98 ∷ [])) % divisor * 2 ^ 16
adler32_scalar-exact_example =
    adler32_scalar-exact 1 (97 ∷ 98 ∷ []) (omega arith, omega arith)
      (omega arith, (omega arith, tt))

adler32_combine_lem_example :
    adler32_combine (adler32 1 (97 ∷ [])) (adler32 1 (98 ∷ [])) 1 ≡ adler32 1 (97 ∷ 98 ∷ [])
adler32_combine_lem_example =
    adler32_combine_lem (97 ∷ []) (98 ∷ []) (omega arith, tt) (omega arith, tt)

combine-feed_example :
    finish (combine 32 (feed new ((97 ∷ []) ∷ [])) (feed new ((98 ∷ []) ∷ (99 ∷ []) ∷ [])))
    ≡ adler32 1 (97 ∷ 98 ∷ 99 ∷ [])
combine-feed_example =
    combine-feed 32 ((97 ∷ []) ∷ []) ((98 ∷ []) ∷ (99 ∷ []) ∷ []) ((omega arith, tt), tt)
      ((omega arith, tt), ((omega arith, tt), tt)) (omega arith) (omega arith)

-- The output bit stream.
abbrev partial : OutputBitstream
partial = record { bitbuf = 5; bitcount = 11; pos = 0; buf = 0 ∷ 0 ∷ []; overflow = false }

partial-IsValid : IsValid partial
partial-IsValid = record { bits_fit = omega arith; count_le = omega arith; pos_le = omega arith }

abbrev no_room : OutputBitstream
no_room = record { bitbuf = 5; bitcount = 11; pos = 0; buf = []; overflow = false }

no_room-IsValid : IsValid no_room
no_room-IsValid = record { bits_fit = omega arith; count_le = omega arith; pos_le = omega arith }

abbrev fresh : OutputBitstream
fresh = record { bitbuf = 1; bitcount = 2; pos = 0; buf = 0 ∷ 0 ∷ []; overflow = false }

fresh-IsValid : IsValid fresh
fresh-IsValid = record { bits_fit = omega arith; count_le = omega arith; pos_le = omega arith }

flush_bits-Done_example : Done partial (flush_bits partial)
flush_bits-Done_example = flush_bits-Done partial partial-IsValid (omega arith)

flush_bits-Full_example : Full no_room (flush_bits no_room)
flush_bits-Full_example = flush_bits-Full no_room no_room-IsValid (omega arith)

put_all-Written_example :
    Written fresh ((5, 3) ∷ (300, 9) ∷ []) (put_all fresh ((5, 3) ∷ (300, 9) ∷ []))
put_all-Written_example =
    put_all-Written fresh ((5, 3) ∷ (300, 9) ∷ []) fresh-IsValid (omega arith)
      ((omega arith, omega arith), ((omega arith, omega arith), tt)) (omega arith)

put_all-overflow_example : (put_all fresh ((5, 3) ∷ (300, 56) ∷ [])).overflow ≡ true
put_all-overflow_example =
    put_all-overflow fresh ((5, 3) ∷ (300, 56) ∷ []) fresh-IsValid (omega arith)
      ((omega arith, omega arith), ((omega arith, omega arith), tt)) (omega arith)

-- The bit reader.
abbrev reader : BitReader
reader = record { bitbuf = 5; bitsleft = 8; in_pos = 1; overread_count = 0 }

reader-Reads : Reads (5 ∷ 6 ∷ []) 0 reader
unfolding from_le_bytes
reader-Reads = record {
  held = 8;
  bits_held = omega arith;
  held_le = omega arith;
  window = refl;
  at = omega arith;
  bits_le = omega arith;
  pos_le = omega arith;
  past_end = λ _. refl;
}

refill_bits-Reads_example :
    (s : BitReader) × (refill_bits {R = ℕ} reader (5 ∷ 6 ∷ []) ≡ ok s)
    × Reads (5 ∷ 6 ∷ []) 0 s
    × (56 ≤ s.bitsleft)
refill_bits-Reads_example =
    refill_bits-Reads ℕ (5 ∷ 6 ∷ []) 0 reader (omega arith, (omega arith, tt)) reader-Reads
      (omega arith)

-- A table of the code with two literals, `a` at 0 and `b` at 1, indexed by two bits.
abbrev literals : List ℕ
literals = 0x80610001 ∷ 0x80620001 ∷ 0x80610001 ∷ 0x80620001 ∷ []

add_double_literals-from_old_example :
    (1 < 4 → get_or (add_double_literals literals 2) 1 0 ≡ double_entry literals 2 1)
    × (4 ≤ 1 → get_or (add_double_literals literals 2) 1 0 ≡ get_or literals 1 0)
add_double_literals-from_old_example = add_double_literals-from_old literals 2 1 (omega arith)

-- Match lengths and block ends.
choose_max_block_end_lem_example :
    (choose_max_block_end 10 400000 300000 ≤ 400000)
    × (choose_max_block_end 10 400000 300000 < 10 + 300000 + 5000)
    × ((choose_max_block_end 10 400000 300000 ≡ 400000)
        ⊎ (choose_max_block_end 10 400000 300000 ≡ 10 + 300000)
          × (choose_max_block_end 10 400000 300000 + 5000 ≤ 400000))
choose_max_block_end_lem_example = choose_max_block_end_lem 10 400000 300000 (omega arith)
