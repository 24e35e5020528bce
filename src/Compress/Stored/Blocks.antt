-- ===== src/Compress/Stored/Blocks.antt =====
-- The stream that level 0 writes, as RFC 1951 describes it, and when there is room for it.
use zenflate.Prelude.{
  ℕ, zero, suc, ◌+◌, ◌≤◌, ◌<◌, min, List, [], ◌∷◌, ◌++◌, length, take, drop, leb, Bool, true, false,
  ◌&&◌, arith, ◌≡◌, refl, ap, ◌∙◌, sym, inl, inr, Bool-cases, length-drop, length-append, take_all,
  drop_all, leb→gt, append_assoc, append_empty, leb→le,
}
use zenflate.Prelude.Buffer.{write, length-write, take-write}
use zenflate.Prelude.Words.{to_le_bytes}
use zenflate.Compress.Stored.{block_header, put_block}

-- At most 65535 bytes each, from the front.
abbrev pub split : ℕ → List ℕ → List (List ℕ)
split zero xs = []
split (suc fuel) [] = []
split (suc fuel) (x ∷ xs) =
    let len = min (length (x ∷ xs)) 0xffff in take len (x ∷ xs) ∷ split fuel (drop len (x ∷ xs))

abbrev pub none_left : List (List ℕ) → Bool
none_left [] = true
none_left (c ∷ cs) = false

-- Stored blocks of these chunks, the last with BFINAL if the stream ends there.
abbrev pub stored_stream : Bool → List (List ℕ) → List ℕ
stored_stream is_last [] = []
stored_stream is_last (c ∷ cs) =
    block_header (is_last && none_left cs) (length c) ++ (c ++ stored_stream is_last cs)

pub length-block_header : (b : Bool) (n : ℕ) → length (block_header b n) ≡ 5
unfolding block_header to_le_bytes
length-block_header b n = refl

split-empty : (fuel : ℕ) → split fuel [] ≡ []
split-empty zero = refl
split-empty (suc fuel) = refl

split-left :
    (fuel : ℕ) (ys : List ℕ) → 0 < length ys → length ys ≤ fuel → none_left (split fuel ys) ≡ false
split-left fuel [] h g = absurd (omega arith)
split-left zero (y ∷ ys) h g = absurd (omega arith)
split-left (suc fuel) (y ∷ ys) h g = refl

-- A chunk ends the stream exactly if it is all that is left.
pub none_left-split :
    (fuel : ℕ) (xs : List ℕ)
    → length (drop (min (length xs) 0xffff) xs) ≤ fuel
    → none_left (split fuel (drop (min (length xs) 0xffff) xs)) ≡ leb (length xs) 0xffff
none_left-split fuel xs h =
    let rest = length-drop (min (length xs) 0xffff) xs in
    elim (Bool-cases (leb (length xs) 0xffff)) [
      | inl all ↦
          let e =
            drop_all (min (length xs) 0xffff) xs (omega (arith, leb→le (length xs) 0xffff all)) in
          ap (λ t. none_left (split fuel t)) e ∙ ap none_left (split-empty fuel) ∙ sym all
      | inr some_left ↦
          split-left fuel (drop (min (length xs) 0xffff) xs)
            (omega (arith, rest, leb→gt (length xs) 0xffff some_left)) h
          ∙ sym some_left
    ]

-- What a block leaves: its header and its bytes, behind what stood before.
length-put_block :
    (b : Bool) (bytes output : List ℕ) (pos : ℕ)
    → pos + 5 + length bytes ≤ length output
    → length (put_block b bytes output pos) ≡ length output
unfolding put_block
length-put_block b bytes output pos h =
    let header = length-block_header b (length bytes) in
    let first = length-write output pos (block_header b (length bytes)) (omega (arith, header)) in
    length-write (write output pos (block_header b (length bytes))) (pos + 5) bytes
      (omega (arith, first))
    ∙ first

take-put_block :
    (b : Bool) (bytes output : List ℕ) (pos : ℕ)
    → pos + 5 + length bytes ≤ length output
    → take (pos + 5 + length bytes) (put_block b bytes output pos)
      ≡ take pos output ++ (block_header b (length bytes) ++ bytes)
unfolding put_block
take-put_block b bytes output pos h =
    let header = length-block_header b (length bytes) in
    let hdr = block_header b (length bytes) in
    let first = length-write output pos hdr (omega (arith, header)) in
    take-write (length bytes) (write output pos hdr) (pos + 5) bytes (omega (arith, first))
      (omega arith)
    ∙ ap (λ t. take (pos + 5) (write output pos hdr) ++ t)
        (take_all (length bytes) bytes (omega arith))
    ∙ ap (λ t. t ++ bytes)
        (take-write 5 output pos hdr (omega arith) (omega (arith, header))
          ∙ ap (λ t. take pos output ++ t) (take_all 5 hdr (omega (arith, header))))
    ∙ append_assoc (take pos output) hdr bytes

-- The output holds a stream from a position on, and is as it was before it.
pub record Wrote (stream output : List ℕ) (pos : ℕ) (output' : List ℕ) : Type 0 where
  pub keeps : length output' ≡ length output
  pub holds : take (pos + length stream) output' ≡ take pos output ++ stream

pub Wrote-empty : (output : List ℕ) (pos : ℕ) → Wrote [] output pos output
Wrote-empty output pos = record {
  keeps = refl;
  holds = ap (λ (t : ℕ). take t output) (omega arith) ∙ sym (append_empty (take pos output));
}

pub Wrote-append :
    (xs ys output mid output' : List ℕ) (pos pos' : ℕ)
    → pos' ≡ pos + length xs
    → Wrote xs output pos mid
    → Wrote ys mid pos' output'
    → Wrote (xs ++ ys) output pos output'
Wrote-append xs ys output mid output' pos pos' e v w = record {
  keeps = w.keeps ∙ v.keeps;
  holds =
      ap (λ (t : ℕ). take t output') (omega (arith, length-append xs ys))
      ∙ w.holds
      ∙ ap (λ (t : ℕ). take t mid ++ ys) e
      ∙ ap (λ t. t ++ ys) v.holds
      ∙ append_assoc (take pos output) xs ys;
}

pub put_block-Wrote :
    (b : Bool) (bytes output : List ℕ) (pos : ℕ)
    → pos + 5 + length bytes ≤ length output
    → Wrote (block_header b (length bytes) ++ bytes) output pos (put_block b bytes output pos)
put_block-Wrote b bytes output pos h = record {
  keeps = length-put_block b bytes output pos h;
  holds =
      ap (λ (t : ℕ). take t (put_block b bytes output pos))
        (omega (
          arith,
          length-append (block_header b (length bytes)) bytes,
          length-block_header b (length bytes),
        ))
      ∙ take-put_block b bytes output pos h;
}

pub Wrote-same :
    (xs ys output output' : List ℕ) (pos : ℕ)
    → xs ≡ ys
    → Wrote xs output pos output'
    → Wrote ys output pos output'
Wrote-same xs ys output output' pos e w = record {
  keeps = w.keeps;
  holds =
      ap (λ t. take (pos + length t) output') (sym e) ∙ w.holds ∙ ap (λ t. take pos output ++ t) e;
}
