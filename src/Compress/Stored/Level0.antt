-- ===== src/Compress/Stored/Level0.antt =====
-- `deflate_compress_none` and `deflate_compress_none_chunk` of src/compress/mod.rs on a whole input:
-- the stream, its size, and the room that suffices.
use zenflate.Prelude.{
  ℕ, zero, suc, ◌+◌, ◌*◌, ◌≤◌, ◌<◌, min, List, [], ◌∷◌, ◌++◌, length, take, drop, All, Bool, true,
  false, if◌then◌else◌, arith, ◌≡◌, refl, ap, ◌∙◌, length-drop, take_all, take-append-drop, ge→ltb,
  lt→ltb,
}
use zenflate.Prelude.Buffer.{write, length-write, take-write}
use zenflate.Outcome.{ok, err, insufficient_space}
use zenflate.Compress.{deflate_compress_bound}
use zenflate.Compress.Stored.{block_header, deflate_compress_none, deflate_compress_none_chunk}
use zenflate.Compress.Stored.Blocks.{split, stored_stream, Wrote}
use zenflate.Compress.Stored.Writes.{
  length-stored_stream, length-split_first, none_loop-Wrote, none_loop-full,
}

-- The chunks of an input: an empty one has a block too.
abbrev pub chunks : List ℕ → List (List ℕ)
chunks [] = [] ∷ []
chunks (x ∷ xs) = split (length (x ∷ xs)) (x ∷ xs)

abbrev pub join : List (List ℕ) → List ℕ
join [] = []
join (c ∷ cs) = c ++ join cs

abbrev pub IsChunk : List ℕ → Type 0
IsChunk c = length c ≤ 0xffff

join-split : (fuel : ℕ) (xs : List ℕ) → length xs ≤ fuel → join (split fuel xs) ≡ xs
join-split zero [] h = refl
join-split zero (x ∷ xs) h = absurd (omega arith)
join-split (suc fuel) [] h = refl
join-split (suc fuel) (x ∷ xs) h =
    let len = min (length (x ∷ xs)) 0xffff in
    ap (λ t. take len (x ∷ xs) ++ t)
      (join-split fuel (drop len (x ∷ xs)) (omega (arith, length-drop len (x ∷ xs))))
    ∙ take-append-drop len (x ∷ xs)

pub join-chunks : (xs : List ℕ) → join (chunks xs) ≡ xs
join-chunks [] = refl
join-chunks (x ∷ xs) = join-split (length (x ∷ xs)) (x ∷ xs) (omega arith)

split-IsChunk : (fuel : ℕ) (xs : List ℕ) → All IsChunk (split fuel xs)
split-IsChunk zero xs = tt
split-IsChunk (suc fuel) [] = tt
split-IsChunk (suc fuel) (x ∷ xs) =
    let len = min (length (x ∷ xs)) 0xffff in
    (omega (arith, length-split_first (x ∷ xs)), split-IsChunk fuel (drop len (x ∷ xs)))

pub chunks-IsChunk : (xs : List ℕ) → All IsChunk (chunks xs)
chunks-IsChunk [] = (omega arith, tt)
chunks-IsChunk (x ∷ xs) = split-IsChunk (length (x ∷ xs)) (x ∷ xs)

-- A chunk that is not the last is a full one, longer than the shortest block.
size-split :
    (b : Bool) (fuel : ℕ) (xs : List ℕ)
    → length xs ≤ fuel
    → (n : ℕ) × (length (stored_stream b (split fuel xs)) ≡ 5 * n + length xs)
      × (5000 * n ≤ length xs + 4999)
size-split b zero [] h = (0, refl, omega arith)
size-split b zero (x ∷ xs) h = absurd (omega arith)
size-split b (suc fuel) [] h = (0, refl, omega arith)
size-split b (suc fuel) (x ∷ xs) h =
    let len = min (length (x ∷ xs)) 0xffff in
    let rest_len = length-drop len (x ∷ xs) in
    let (n, e, le) = size-split b fuel (drop len (x ∷ xs)) (omega (arith, rest_len)) in
    let total = length-stored_stream b (take len (x ∷ xs)) (split fuel (drop len (x ∷ xs))) in
    let c_len = length-split_first (x ∷ xs) in
    (suc n, omega (arith, rest_len, e, total, c_len), omega (arith, rest_len, le))

pub size-bound :
    (b : Bool) (xs : List ℕ)
    → length (stored_stream b (chunks xs)) ≤ deflate_compress_bound (length xs)
unfolding deflate_compress_bound block_header
size-bound b [] = omega arith
size-bound b (x ∷ xs) =
    let (n, e, le) = size-split b (length (x ∷ xs)) (x ∷ xs) (omega arith) in omega (arith, e, le)

Wrote-header :
    (bytes output : List ℕ)
    → length bytes ≤ length output
    → Wrote bytes output 0 (write output 0 bytes)
Wrote-header bytes output h = record {
  keeps = length-write output 0 bytes (omega (arith, h));
  holds =
      take-write (length bytes) output 0 bytes (omega arith) (omega arith)
      ∙ take_all (length bytes) bytes (omega arith);
}

-- With room for them, a level-0 segment succeeds, writes the stored blocks of the input's
-- chunks, and keeps the length of the output.
pub deflate_compress_none_chunk-Wrote {ℓ} :
    (R : Type ℓ) (input output : List ℕ) (is_last : Bool)
    → length (stored_stream is_last (chunks input)) ≤ length output
    → (output' : List ℕ) × (deflate_compress_none_chunk {R = R} input output is_last
        ≡ ok (length (stored_stream is_last (chunks input)), output'))
      × Wrote (stored_stream is_last (chunks input)) output 0 output'
unfolding deflate_compress_none_chunk block_header
deflate_compress_none_chunk-Wrote R [] output true room =
    let block = 1 ∷ 0 ∷ 0 ∷ 0xff ∷ 0xff ∷ [] in
    (
      write output 0 block,
      ap (λ t. if t then err insufficient_space else ok (5, write output 0 block))
          (ge→ltb (length output) 5 room),
      Wrote-header block output room,
    )
deflate_compress_none_chunk-Wrote R [] output false room =
    let block = 0 ∷ 0 ∷ 0 ∷ 0xff ∷ 0xff ∷ [] in
    (
      write output 0 block,
      ap (λ t. if t then err insufficient_space else ok (5, write output 0 block))
          (ge→ltb (length output) 5 room),
      Wrote-header block output room,
    )
deflate_compress_none_chunk-Wrote R (x ∷ xs) output is_last room =
    let (output', eq, w) =
      none_loop-Wrote R (length (x ∷ xs)) is_last (x ∷ xs) output 0 (omega arith)
        (omega (arith, room)) in
    (output', eq ∙ ap (λ (t : ℕ). ok (t, output')) (omega arith), w)

-- Without room for these blocks, a level-0 segment fails with `insufficient_space`.
pub deflate_compress_none_chunk-full {ℓ} :
    (R : Type ℓ) (input output : List ℕ) (is_last : Bool)
    → length output < length (stored_stream is_last (chunks input))
    → deflate_compress_none_chunk {R = R} input output is_last ≡ err insufficient_space
unfolding deflate_compress_none_chunk block_header
deflate_compress_none_chunk-full R [] output is_last full =
    ap
      (λ t.
        if t
        then err insufficient_space
        else ok (5, write output 0 ((if is_last then 1 else 0) ∷ 0 ∷ 0 ∷ 0xff ∷ 0xff ∷ [])))
      (lt→ltb (length output) 5 full)
deflate_compress_none_chunk-full R (x ∷ xs) output is_last full =
    none_loop-full R (length (x ∷ xs)) is_last (x ∷ xs) output 0 (omega arith) (omega arith)
      (omega (arith, full))

-- The whole stream is the segment that is the last.
pub deflate_compress_none-last {ℓ} :
    (R : Type ℓ) (input output : List ℕ)
    → deflate_compress_none {R = R} input output ≡ deflate_compress_none_chunk input output true
unfolding deflate_compress_none deflate_compress_none_chunk
deflate_compress_none-last R [] output = refl
deflate_compress_none-last R (x ∷ xs) output = refl

-- With `deflate_compress_bound` bytes of room, level 0 succeeds, and what it writes is the
-- stored blocks of the input's chunks.
pub deflate_compress_none-bound {ℓ} :
    (R : Type ℓ) (input output : List ℕ)
    → deflate_compress_bound (length input) ≤ length output
    → (output' : List ℕ) × (deflate_compress_none {R = R} input output
        ≡ ok (length (stored_stream true (chunks input)), output'))
      × (take (length (stored_stream true (chunks input))) output'
          ≡ stored_stream true (chunks input))
deflate_compress_none-bound R input output room =
    let size = size-bound true input in
    let (output', eq, w) =
      deflate_compress_none_chunk-Wrote R input output true (omega (arith, size)) in
    (
      output',
      deflate_compress_none-last R input output ∙ eq,
      ap (λ (t : ℕ). take t output') (omega arith) ∙ w.holds,
    )
