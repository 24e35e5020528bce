-- ===== src/Compress/Stored/Writes.antt =====
-- What the loop of `deflate_compress_none` and `deflate_compress_none_chunk` does to the output.
use zenflate.Prelude.{
  ℕ, zero, suc, ◌+◌, ◌≤◌, ◌<◌, min, List, [], ◌∷◌, ◌++◌, length, take, drop, leb, ltb, Bool, ◌&&◌,
  if◌then◌else◌, arith, ◌≡◌, ap, ◌∙◌, sym, inl, inr, Bool-cases, length-take, length-drop,
  length-append, append_assoc, ltb→ge, ge→ltb,
}
use zenflate.Outcome.{Outcome, ok, err, CompressionError, insufficient_space}
use zenflate.Compress.Stored.{block_header, put_block, none_loop}
use zenflate.Compress.Stored.Blocks.{
  split, none_left, stored_stream, length-block_header, none_left-split, Wrote, Wrote-empty,
  Wrote-append, put_block-Wrote, Wrote-same,
}

pub length-stored_stream :
    (b : Bool) (c : List ℕ) (cs : List (List ℕ))
    → length (stored_stream b (c ∷ cs)) ≡ 5 + length c + length (stored_stream b cs)
length-stored_stream b c cs = omega (
  arith,
  length-append (block_header (b && none_left cs) (length c)) (c ++ stored_stream b cs),
  length-append c (stored_stream b cs),
  length-block_header (b && none_left cs) (length c),
)

pub length-split_first :
    (xs : List ℕ) → length (take (min (length xs) 0xffff) xs) ≡ min (length xs) 0xffff
length-split_first xs = omega (arith, length-take (min (length xs) 0xffff) xs)

-- With enough room, the loop writes the stored blocks of what is left.
pub none_loop-Wrote {ℓ} :
    (R : Type ℓ) (fuel : ℕ) (is_last : Bool) (xs output : List ℕ) (pos : ℕ)
    → length xs ≤ fuel
    → pos + length (stored_stream is_last (split fuel xs)) ≤ length output
    → (output' : List ℕ) × (none_loop {R = R} fuel is_last xs output pos
        ≡ ok (pos + length (stored_stream is_last (split fuel xs)), output'))
      × Wrote (stored_stream is_last (split fuel xs)) output pos output'
unfolding none_loop
none_loop-Wrote R zero is_last [] output pos h room =
    (output, ap (λ (t : ℕ). ok (t, output)) (omega arith), Wrote-empty output pos)
none_loop-Wrote R zero is_last (x ∷ xs) output pos h room = absurd (omega arith)
none_loop-Wrote R (suc fuel) is_last [] output pos h room =
    (output, ap (λ (t : ℕ). ok (t, output)) (omega arith), Wrote-empty output pos)
none_loop-Wrote R (suc fuel) is_last (x ∷ xs) output pos h room =
    let len = min (length (x ∷ xs)) 0xffff in
    let c = take len (x ∷ xs) in
    let rest = drop len (x ∷ xs) in
    let cs = split fuel rest in
    let rest_len = length-drop len (x ∷ xs) in
    let c_len = length-split_first (x ∷ xs) in
    let flag : none_left cs ≡ leb (length (x ∷ xs)) 0xffff =
      none_left-split fuel (x ∷ xs) (omega (arith, rest_len)) in
    let total = length-stored_stream is_last c cs in
    let first =
      put_block-Wrote (is_last && leb (length (x ∷ xs)) 0xffff) c output pos
        (omega (arith, total)) in
    let mid = put_block (is_last && leb (length (x ∷ xs)) 0xffff) c output pos in
    let (output', eq, w) =
      none_loop-Wrote R fuel is_last rest mid (pos + 5 + len) (omega (arith, rest_len))
        (omega (arith, total, c_len, first.keeps)) in
    let hdr = block_header (is_last && leb (length (x ∷ xs)) 0xffff) (length c) in
    (
      output',
      ap
            (λ t.
              if t then err insufficient_space else none_loop fuel is_last rest mid (pos + 5 + len))
            (ge→ltb (length output) (pos + 5 + len) (omega (arith, total, c_len)))
          ∙ eq
          ∙ ap (λ (t : ℕ). ok (t, output')) (omega (arith, total, c_len)),
      Wrote-same ((hdr ++ c) ++ stored_stream is_last cs) (stored_stream is_last (c ∷ cs)) output
          output' pos
          (append_assoc hdr c (stored_stream is_last cs)
            ∙ ap (λ t. block_header (is_last && t) (length c) ++ (c ++ stored_stream is_last cs))
                (sym flag))
          (Wrote-append (hdr ++ c) (stored_stream is_last cs) output mid output' pos (pos + 5 + len)
            (omega (
              arith,
              c_len,
              length-append hdr c,
              length-block_header (is_last && leb (length (x ∷ xs)) 0xffff) (length c),
            ))
            first w),
    )

-- Without it, the loop fails.
pub none_loop-full {ℓ} :
    (R : Type ℓ) (fuel : ℕ) (is_last : Bool) (xs output : List ℕ) (pos : ℕ)
    → length xs ≤ fuel
    → pos ≤ length output
    → length output < pos + length (stored_stream is_last (split fuel xs))
    → none_loop {R = R} fuel is_last xs output pos ≡ err insufficient_space
unfolding none_loop
none_loop-full R zero is_last xs output pos h in_range full = absurd (omega arith)
none_loop-full R (suc fuel) is_last [] output pos h in_range full = absurd (omega arith)
none_loop-full R (suc fuel) is_last (x ∷ xs) output pos h in_range full =
    let len = min (length (x ∷ xs)) 0xffff in
    let c = take len (x ∷ xs) in
    let rest = drop len (x ∷ xs) in
    let cs = split fuel rest in
    let rest_len = length-drop len (x ∷ xs) in
    let c_len = length-split_first (x ∷ xs) in
    let total = length-stored_stream is_last c cs in
    let mid = put_block (is_last && leb (length (x ∷ xs)) 0xffff) c output pos in
    let test = ltb (length output) (pos + 5 + len) in
    let step : Bool → Outcome (CompressionError R) (ℕ × List ℕ) =
      λ t. if t then err insufficient_space else none_loop fuel is_last rest mid (pos + 5 + len) in
    elim (Bool-cases test) [
      | inl over ↦ ap step over
      | inr fits ↦
          let room = ltb→ge (length output) (pos + 5 + len) fits in
          let first =
            put_block-Wrote (is_last && leb (length (x ∷ xs)) 0xffff) c output pos
              (omega (arith, c_len)) in
          ap step fits
          ∙ none_loop-full R fuel is_last rest mid (pos + 5 + len) (omega (arith, rest_len))
              (omega (arith, first.keeps)) (omega (arith, total, c_len, first.keeps))
    ]
