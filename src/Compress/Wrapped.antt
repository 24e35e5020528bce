-- ===== src/Compress/Wrapped.antt =====
-- `zlib_compress` and `gzip_compress` of src/compress/mod.rs, around the `deflate_compress` of a
-- compressor. That call is an argument: it takes the input and the output behind the header, and
-- gives the size with what the output then holds.
use zenflate.Prelude.{
  ℕ, ◌+◌, ◌%◌, ◌^◌, List, [], ◌∷◌, ◌++◌, length, take, drop, ltb, leb, if◌then◌else◌,
}
use zenflate.Prelude.Words.{to_le_bytes, to_be_bytes}
use zenflate.Prelude.Buffer.{write}
use zenflate.Outcome.{Outcome, ok, err, CompressionError, insufficient_space, ◌>>=◌}
use zenflate.Checksum.Adler32.{adler32}
use zenflate.Checksum.Crc32.{crc32}
use zenflate.Compress.{zlib_header}

-- The extra flags of the gzip header.
unfoldable pub xfl : ℕ → ℕ
xfl level = if ltb level 2 then 4 else if leb 8 level then 2 else 0

unfoldable pub gzip_header_bytes : ℕ → List ℕ
unfolding xfl
gzip_header_bytes level = 0x1f ∷ 0x8b ∷ 8 ∷ 0 ∷ 0 ∷ 0 ∷ 0 ∷ 0 ∷ xfl level ∷ 0xff ∷ []

module _ {ℓ} {R : Type ℓ}
    (deflate : List ℕ → List ℕ → Outcome (CompressionError R) (ℕ × List ℕ)) where
  unfoldable pub zlib_compress : ℕ → List ℕ → List ℕ → Outcome (CompressionError R) (ℕ × List ℕ)
  zlib_compress level input output =
      if ltb (length output) 6
      then err insufficient_space
      else let hdr = zlib_header level in
        let output1 = write output 0 (hdr.0 ∷ hdr.1 ∷ []) in
        deflate input (drop 2 output1) >>= λ r.
        let total = 2 + r.0 in
        let checksum = adler32 1 input in
        if ltb (length output) (total + 4)
        then err insufficient_space
        else ok (total + 4, write (take 2 output1 ++ r.1) total (to_be_bytes 4 checksum))

  unfoldable pub gzip_compress : ℕ → List ℕ → List ℕ → Outcome (CompressionError R) (ℕ × List ℕ)
  gzip_compress level input output =
      if ltb (length output) 18
      then err insufficient_space
      else let output1 = write output 0 (gzip_header_bytes level) in
        deflate input (drop 10 output1) >>= λ r.
        let total = 10 + r.0 in
        if ltb (length output) (total + 8)
        then err insufficient_space
        else let isize = to_le_bytes 4 (length input % 2 ^ 32) in
          let output2 = write (take 10 output1 ++ r.1) total (to_le_bytes 4 (crc32 0 input)) in
          ok (total + 8, write output2 (total + 4) isize)
