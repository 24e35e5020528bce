-- ===== src/RoundTrip/Encoder.antt =====
-- What the wrappers of src/compress/mod.rs ask of the `deflate_compress` they call, and level 0,
-- which gives it.
use zenflate.Prelude.{
  ℕ, ◌≤◌, Option, none, List, [], length, take, All, arith, ◌≡◌, refl, sym, ap, ◌⊎◌, inl, inr, ◌∙◌,
  length-take, append_empty, true,
}
use zenflate.Prelude.Words.{IsByte}
use zenflate.Outcome.{Outcome, ok, CompressionError}
use zenflate.Decompress.State.{Decompressor, Run, ChecksumPolicy, verify, report, ignore}
use zenflate.Decompress.Inflate.{deflate_decompress_core, start}
use zenflate.Compress.{deflate_compress_bound}
use zenflate.Compress.Stored.{deflate_compress_none}
use zenflate.Compress.Stored.Blocks.{stored_stream}
use zenflate.Compress.Stored.Level0.{chunks, size-bound, deflate_compress_none-bound}
use zenflate.RoundTrip.Level0.{decode-chunks}

-- The call writes `size` bytes, which the decoder takes to their end and decodes to the input.
pub record Inverted {ℓ κ} {Q : Type ℓ} {R : Type κ}
    (deflate : List ℕ → List ℕ → Outcome (CompressionError Q) (ℕ × List ℕ)) (stop : ℕ → Option R)
    (input output target : List ℕ) (d : Decompressor) : Type (ℓ ⊔ κ) where
  pub size : ℕ
  pub written : List ℕ
  pub run : Run
  pub compressed : deflate input output ≡ ok (size, written)
  pub in_range : size ≤ length written
  pub bounded : size ≤ deflate_compress_bound (length input)
  pub decoded :
      deflate_decompress_core stop (take size written) (start d target)
      ≡ (ok (size, length input), run)
  pub holds : take (length input) run.output ≡ input
  pub policy : run.d.checksum ≡ d.checksum

-- A compressor whose calls, with the room the bound asks for, are inverted by the decoder.
pub record Encoder {ℓ κ} (Q : Type ℓ) (R : Type κ) : Type (ℓ ⊔ κ) where
  pub deflate : List ℕ → List ℕ → Outcome (CompressionError Q) (ℕ × List ℕ)
  pub inverts :
      (stop : ℕ → Option R) (input output target : List ℕ) (d : Decompressor)
      → ((n : ℕ) → stop n ≡ none)
      → All IsByte input
      → deflate_compress_bound (length input) ≤ length output
      → d.max_output_size ≡ none
      → length input ≤ length target
      → Inverted deflate stop input output target d

pub long_enough : (n : ℕ) (xs ys : List ℕ) → take n xs ≡ ys → length ys ≡ n → n ≤ length xs
long_enough n xs ys e f = omega (arith, length-take n xs, ap length e, f)

-- `deflate_compress_none`, which `deflate_compress` is at level 0.
unfoldable pub level0 {ℓ κ} : (Q : Type ℓ) (R : Type κ) → Encoder Q R
level0 Q R = record {
  deflate = deflate_compress_none;
  inverts = λ stop input output target d go hb room no_limit fits.
      let (written, eq, stream) = deflate_compress_none-bound Q input output room in
      let (s, decoded, same, policy) =
        decode-chunks R stop input [] target d go hb tt no_limit fits in
      let all = stored_stream true (chunks input) in
      record {
        size = length all;
        written = written;
        run = s;
        compressed = eq;
        in_range = long_enough (length all) written all stream refl;
        bounded = size-bound true input;
        decoded =
            ap (λ l. deflate_decompress_core stop l (start d target))
              (stream ∙ sym (append_empty all))
            ∙ decoded;
        holds = same;
        policy = policy;
      };
}

pub policy-cases : (p : ChecksumPolicy) → (p ≡ ignore) ⊎ (p ≡ verify) ⊎ (p ≡ report)
policy-cases verify = inr (inl refl)
policy-cases report = inr (inr refl)
policy-cases ignore = inl refl
