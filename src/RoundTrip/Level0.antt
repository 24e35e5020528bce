-- ===== src/RoundTrip/Level0.antt =====
-- The round trip of level 0: `deflate_compress_none` of src/compress/mod.rs, then the decoder of
-- src/decompress/mod.rs.
use zenflate.Prelude.{
  ℕ, ◌+◌, ◌-◌, ◌*◌, ◌/◌, ◌%◌, ◌^◌, ◌≤◌, min, Option, none, List, [], ◌∷◌, ◌++◌, length, take, drop,
  All, All-append, All-take, All-drop, Bool, true, false, ◌&&◌, arith, ◌≡◌, refl, ap, ◌∙◌, sym,
  take-append, drop-append,
}
use zenflate.Prelude.Words.{IsByte, to_le_bytes, to_le_bytes-IsByte}
use zenflate.Outcome.{ok, insufficient_space}
use zenflate.Decompress.Refill.{BitReader}
use zenflate.Decompress.State.{Decompressor, Run}
use zenflate.Decompress.Inflate.{output_limit, finish_core, deflate_decompress_core, start}
use zenflate.Compress.{deflate_compress_bound}
use zenflate.Compress.Stored.{block_header, deflate_compress_none}
use zenflate.Compress.Stored.Blocks.{split, none_left, stored_stream}
use zenflate.Compress.Stored.Level0.{
  IsChunk, chunks, join, join-chunks, chunks-IsChunk, deflate_compress_none-bound,
}
use mathlib.Core.Path.{subst}
use zenflate.RoundTrip.Align.{at_byte, at_byte-Reads}
use zenflate.RoundTrip.Stream.{StoredBlocks, StoredBlocks-count, blocks-stored}
use zenflate.RoundTrip.Written.{stored_stream-StoredBlocks}

lens-IsByte : (x y : ℕ) → All IsByte (to_le_bytes 2 x ++ to_le_bytes 2 y)
lens-IsByte x y =
    All-append IsByte (to_le_bytes 2 x) (to_le_bytes 2 y) (to_le_bytes-IsByte 2 x)
      (to_le_bytes-IsByte 2 y)

block_header-IsByte : (b : Bool) (n : ℕ) → All IsByte (block_header b n)
unfolding block_header
block_header-IsByte true n = (omega arith, lens-IsByte (n % 2 ^ 16) (65535 - n % 2 ^ 16))
block_header-IsByte false n = (omega arith, lens-IsByte (n % 2 ^ 16) (65535 - n % 2 ^ 16))

All-front : (xs ys : List ℕ) → All IsByte (xs ++ ys) → All IsByte xs
All-front xs ys h =
    subst (All IsByte) (take-append xs ys) (All-take IsByte (length xs) (xs ++ ys) h)

All-back : (xs ys : List ℕ) → All IsByte (xs ++ ys) → All IsByte ys
All-back xs ys h = subst (All IsByte) (drop-append xs ys) (All-drop IsByte (length xs) (xs ++ ys) h)

stored_stream-IsByte :
    (b : Bool) (cs : List (List ℕ)) → All IsByte (join cs) → All IsByte (stored_stream b cs)
stored_stream-IsByte b [] h = tt
stored_stream-IsByte b (c ∷ cs) h =
    All-append IsByte (block_header (b && none_left cs) (length c)) (c ++ stored_stream b cs)
      (block_header-IsByte (b && none_left cs) (length c))
      (All-append IsByte c (stored_stream b cs) (All-front c (join cs) h)
        (stored_stream-IsByte b cs (All-back c (join cs) h)))

finish_core-at_byte {ℓ} :
    (R : Type ℓ) (r : BitReader) (m k n : ℕ)
    → r ≡ at_byte k
    → m ≡ n
    → finish_core {R = R} r m ≡ ok (k, n)
unfolding finish_core
finish_core-at_byte R r m k n e f =
    let back : k - (0 / 8 - 0) ≡ k = omega arith in
    ap (λ (x : BitReader). finish_core x m) e
    ∙ ap (λ (t : ℕ). ok (t, m)) back
    ∙ ap (λ (t : ℕ). ok (k, t)) f

output_limit-none {ℓ} :
    (R : Type ℓ) (o : Option ℕ) (n : ℕ)
    → o ≡ none
    → output_limit {R = R} o n ≡ (n, insufficient_space)
unfolding output_limit
output_limit-none R o n h = ap (λ x. output_limit x n) h

-- In an input of bytes that begins with a stream of stored blocks, each padded with any bits, and
-- whatever stands behind it, the decoder, with no stop and no output limit, takes the stream to its
-- end, puts out the bytes of the blocks, where the target has room for them, and keeps the checksum
-- policy.
pub deflate_decompress_core-stored {ℓ} :
    (R : Type ℓ) (stop : ℕ → Option R) (input c : List ℕ) (cs : List (List ℕ)) (e : ℕ)
    (target : List ℕ) (d : Decompressor)
    → ((n : ℕ) → stop n ≡ none)
    → All IsByte input
    → StoredBlocks input 0 (c ∷ cs) e
    → d.max_output_size ≡ none
    → length (join (c ∷ cs)) ≤ length target
    → (s : Run) × (deflate_decompress_core stop input (start d target)
        ≡ (ok (e, length (join (c ∷ cs))), s))
      × (take (length (join (c ∷ cs))) s.output ≡ join (c ∷ cs))
      × (s.d.checksum ≡ d.checksum)
unfolding deflate_decompress_core
deflate_decompress_core-stored R stop input c cs e target d go hb h no_limit room =
    let (s, eq, v) =
      blocks-stored R stop input (length target) insufficient_space c cs (start d target) 0 e
        (8 * length input + 65) go hb (at_byte-Reads input 0 (omega arith)) h (omega (arith, room))
        (omega arith) (omega (arith, StoredBlocks-count input 0 (c ∷ cs) e h (omega arith))) in
    let end : s.out_pos ≡ length (join (c ∷ cs)) = omega (arith, v.put) in
    (
      s,
      rw (output_limit-none R d.max_output_size (length target) no_limit, eq)
          (ap (λ r. (r, s))
            (finish_core-at_byte R s.bits s.out_pos e (length (join (c ∷ cs))) v.taken end)),
      ap (λ (t : ℕ). take t s.output) (sym end) ∙ v.holds,
      v.policy,
    )

-- The stream as level 0 writes it.
stored_stream-decoded {ℓ} :
    (R : Type ℓ) (stop : ℕ → Option R) (c : List ℕ) (cs : List (List ℕ)) (rest target : List ℕ)
    (d : Decompressor)
    → ((n : ℕ) → stop n ≡ none)
    → All IsByte (join (c ∷ cs))
    → All IsByte rest
    → All IsChunk (c ∷ cs)
    → d.max_output_size ≡ none
    → length (join (c ∷ cs)) ≤ length target
    → (s : Run) × (deflate_decompress_core stop
          (stored_stream true (c ∷ cs) ++ rest)
          (start d target)
        ≡ (ok (length (stored_stream true (c ∷ cs)), length (join (c ∷ cs))), s))
      × (take (length (join (c ∷ cs))) s.output ≡ join (c ∷ cs))
      × (s.d.checksum ≡ d.checksum)
stored_stream-decoded R stop c cs rest target d go hb hr small no_limit room =
    let stream = stored_stream true (c ∷ cs) in
    let bytes = All-append IsByte stream rest (stored_stream-IsByte true (c ∷ cs) hb) hr in
    deflate_decompress_core-stored R stop (stream ++ rest) c cs (length stream) target d go bytes
      (subst (λ (n : ℕ). StoredBlocks (stream ++ rest) 0 (c ∷ cs) n) (omega arith)
        (stored_stream-StoredBlocks (stream ++ rest) rest 0 (c ∷ cs) bytes small refl))
      no_limit room

-- The bytes that level 0 writes for an input are decoded to it.
pub decode-chunks {ℓ} :
    (R : Type ℓ) (stop : ℕ → Option R) (input rest target : List ℕ) (d : Decompressor)
    → ((n : ℕ) → stop n ≡ none)
    → All IsByte input
    → All IsByte rest
    → d.max_output_size ≡ none
    → length input ≤ length target
    → (s : Run) × (deflate_decompress_core stop
          (stored_stream true (chunks input) ++ rest)
          (start d target)
        ≡ (ok (length (stored_stream true (chunks input)), length input), s))
      × (take (length input) s.output ≡ input)
      × (s.d.checksum ≡ d.checksum)
decode-chunks R stop [] rest target d go hb hr no_limit room =
    stored_stream-decoded R stop [] [] rest target d go hb hr (omega arith, tt) no_limit room
decode-chunks R stop (x ∷ xs) rest target d go hb hr no_limit room =
    let input = x ∷ xs in
    let len = min (length input) 0xffff in
    let e : join (chunks input) ≡ input = join-chunks input in
    let (s, eq, same, policy) =
      stored_stream-decoded R stop (take len input) (split (length xs) (drop len input)) rest target
        d go (subst (All IsByte) (sym e) hb) hr (chunks-IsChunk input) no_limit
        (omega (arith, ap length e, room)) in
    (
      s,
      eq ∙ ap (λ l. (ok (length (stored_stream true (chunks input)), length l), s)) e,
      ap (λ l. take (length l) s.output) (sym e) ∙ same ∙ e,
      policy,
    )

-- What level 0 writes for an input of bytes, with `deflate_compress_bound` bytes of room, is
-- decoded to that input, whatever bytes stand behind it: both calls succeed, the decoder takes
-- what was written and no more, and writes as many bytes as the input has. The target has room for
-- them, and there is no output limit and no stop.
pub deflate_compress_none-round_trip {ℓ κ} :
    (Q : Type ℓ) (R : Type κ) (stop : ℕ → Option R) (input output rest target : List ℕ)
    (d : Decompressor)
    → ((n : ℕ) → stop n ≡ none)
    → All IsByte input
    → All IsByte rest
    → deflate_compress_bound (length input) ≤ length output
    → d.max_output_size ≡ none
    → length input ≤ length target
    → (n : ℕ) × (written : List ℕ) × (s : Run) × (deflate_compress_none {R = Q} input output
        ≡ ok (n, written))
      × (deflate_decompress_core stop (take n written ++ rest) (start d target)
          ≡ (ok (n, length input), s))
      × (take (length input) s.output ≡ input)
deflate_compress_none-round_trip Q R stop input output rest target d go hb hr big no_limit room =
    let (written, eq, stream) = deflate_compress_none-bound Q input output big in
    let (s, decoded, same, policy) =
      decode-chunks R stop input rest target d go hb hr no_limit room in
    let n = length (stored_stream true (chunks input)) in
    (
      n,
      written,
      s,
      eq,
      ap (λ l. deflate_decompress_core stop (l ++ rest) (start d target)) stream ∙ decoded,
      same,
    )
