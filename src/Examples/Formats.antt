-- ===== src/Examples/Formats.antt =====
-- The theorems on the zlib and gzip formats of src/compress/mod.rs and src/decompress/mod.rs at
-- concrete inputs.
use zenflate.Prelude.{
  ℕ, Option, none, some, List, [], ◌∷◌, ◌++◌, length, take, replicate, true, arith, ◌≡◌, refl,
}
use zenflate.Outcome.{ok, read}
use zenflate.Decompress.State.{Run}
use zenflate.Decompress.State
use zenflate.Decompress.Inflate.{start}
use zenflate.Decompress.Wrapper.{compares, zlib_decompress}
use zenflate.Decompress.Gzip.{
  gzip_decompress, gzip_header, optional_fields, extra_field, zero_terminated, skip_text, fits,
  header_crc,
}
use zenflate.Decompress.Gzip.Accepts.{GzipHeader, header_bytes}
use zenflate.Decompress.Gzip.Grammar.{gzip_header-header_bytes}
use zenflate.Decompress.Gzip.Safe.{Settled, gzip_header-Settled}
use zenflate.Compress.{zlib_compress_bound, gzip_compress_bound}
use zenflate.Compress.Stored.{deflate_compress_none}
use zenflate.Compress.Wrapped.{zlib_compress, gzip_compress}
use zenflate.RoundTrip.Encoder.{level0}
use zenflate.RoundTrip.Zlib.{zlib_decompress-zlib_compress}
use zenflate.RoundTrip.Gzip.{gzip_decompress-gzip_compress}

abbrev go : ℕ → Option ℕ
go n = none

abbrev input : List ℕ
input = 104 ∷ 105 ∷ []

zlib_decompress-zlib_compress_example :
    (n : ℕ) × (written : List ℕ) × (s : Run) × (zlib_compress {R = ℕ} deflate_compress_none 0 input
        (replicate 13 0)
      ≡ ok (n, written))
    × (zlib_decompress go (take n written) (start State.new (0 ∷ 0 ∷ []))
        ≡ (ok (record { input_consumed = n; output_written = 2 }), s))
    × (take 2 s.output ≡ input)
    × (s.d.checksum_matched ≡ some true)
unfolding zlib_compress_bound State.new level0 compares
zlib_decompress-zlib_compress_example =
    zlib_decompress-zlib_compress ℕ ℕ (level0 ℕ ℕ) 0 go input (replicate 13 0) (0 ∷ 0 ∷ [])
      State.new (λ n. refl) (omega arith, (omega arith, tt)) (omega arith) refl (omega arith)

gzip_decompress-gzip_compress_example :
    (n : ℕ) × (written : List ℕ) × (s : Run) × (gzip_compress {R = ℕ} deflate_compress_none 0 input
        (replicate 25 0)
      ≡ ok (n, written))
    × (gzip_decompress go (take n written) (start State.new (0 ∷ 0 ∷ []))
        ≡ (ok (record { input_consumed = n; output_written = 2 }), s))
    × (take 2 s.output ≡ input)
    × (s.d.checksum_matched ≡ some true)
unfolding gzip_compress_bound State.new level0
gzip_decompress-gzip_compress_example =
    gzip_decompress-gzip_compress ℕ ℕ (level0 ℕ ℕ) 0 go input (replicate 25 0) (0 ∷ 0 ∷ [])
      State.new (λ n. refl) (omega arith, (omega arith, tt)) (omega arith) refl (omega arith)

-- A header with a file name of one letter.
abbrev named : List ℕ
named = 0x1f ∷ 0x8b ∷ 8 ∷ 8 ∷ 0 ∷ 0 ∷ 0 ∷ 0 ∷ 0 ∷ 255 ∷ 97 ∷ 0 ∷ replicate 8 0

gzip_header-Settled_example : Settled {R = ℕ} 8 (length named) (gzip_header named)
gzip_header-Settled_example = gzip_header-Settled ℕ named

named-header : gzip_header {R = ℕ} named ≡ ok 12
unfolding gzip_header optional_fields extra_field zero_terminated skip_text fits header_crc read
named-header = refl

abbrev full : GzipHeader
full = record {
  is_text = true;
  mtime = (1, 2, 3, 4);
  extra_flags = 2;
  os = 3;
  extra = some (7 ∷ 0 ∷ []);
  name = some (97 ∷ []);
  comment = none;
  checksum = some (5, 6);
}

gzip_header-header_bytes_example :
    gzip_header {R = ℕ} (header_bytes full ++ replicate 8 0) ≡ ok (length (header_bytes full))
gzip_header-header_bytes_example =
    gzip_header-header_bytes ℕ full (replicate 8 0) (omega arith, tt) tt (omega arith)
