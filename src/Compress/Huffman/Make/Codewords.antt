-- ===== src/Compress/Huffman/Make/Codewords.antt =====
-- The codewords of `make_huffman_code` of src/compress/huffman.rs: those of `canonical_codewords` for
-- the lengths that it makes.
use zenflate.Prelude.{
  ℕ, zero, suc, ◌+◌, ◌-◌, ◌^◌, ◌≤◌, ◌<◌, List, [], ◌∷◌, length, get_or, set, take, drop, replicate,
  All, ltb, if◌then◌else◌, arith, ◌≡◌, refl, sym, ap, ◌∙◌, lt→ltb, take_all,
}
use zenflate.Prelude.Range.{get_or-append_front}
use zenflate.Prelude.Words.{add32, shl32}
use zenflate.Compress.Huffman.{count_lens, first_codewords, assign_codewords, canonical_codewords}
use zenflate.Compress.Huffman.Weight.{count_of}
use zenflate.Compress.Huffman.Assign.{IsLen, get_or-count_lens, length-assign_codewords}
use zenflate.Compress.Huffman.Make.{assign_lengths, write_codewords, gen_codewords}

-- Only the counts below the last length are read.
first_codewords-agree :
    (k len : ℕ) (cs ds next : List ℕ)
    → 0 < len
    → ((j : ℕ) → len - 1 ≤ j → j < len - 1 + k → get_or cs j 0 ≡ get_or ds j 0)
    → first_codewords cs k len next ≡ first_codewords ds k len next
unfolding first_codewords
first_codewords-agree zero len cs ds next pos h = refl
first_codewords-agree (suc k) len cs ds next pos h =
    let e = h (len - 1) (omega arith) (omega arith) in
    let first = shl32 (add32 (get_or next (len - 1) 0) (get_or cs (len - 1) 0)) 1 in
    first_codewords-agree k (len + 1) cs ds (set next len first) (omega arith)
      (λ j g l. h j (omega (arith, g)) (omega (arith, l, pos)))
    ∙ ap
        (λ (c : ℕ).
          first_codewords ds k (len + 1)
            (set next len (shl32 (add32 (get_or next (len - 1) 0) c) 1)))
        e

-- A symbol with a length gets the codeword that `canonical_codewords` writes.
write-assign :
    (next lens a : List ℕ) (i : ℕ)
    → length lens ≤ length a
    → i < length lens
    → 0 < get_or lens i 0
    → get_or (write_codewords next lens a) i 0 ≡ get_or (assign_codewords next lens) i 0
unfolding write_codewords assign_codewords
write-assign next [] a i h l pos = absurd (omega (arith, l))
write-assign next (x ∷ lens) [] i h l pos = absurd (omega (arith, h))
write-assign next (x ∷ lens) (y ∷ a) zero h l pos = rw (lt→ltb 0 x pos) refl
write-assign next (x ∷ lens) (y ∷ a) (suc i) h l pos =
    write-assign (if ltb 0 x then set next x (add32 (get_or next x 0) 1) else next) lens a i
      (omega (arith, h)) (omega (arith, l)) pos

-- The codewords of the used symbols are the canonical ones of the lengths.
abbrev pub IsCanonical : ℕ → List ℕ × List ℕ → Type 0
IsCanonical k r =
    (i : ℕ)
    → i < length r.0
    → 0 < get_or r.0 i 0
    → get_or r.1 i 0 ≡ get_or (canonical_codewords (length r.0) r.0 r.1 k) i 0

pub gen_codewords-IsCanonical :
    (k n : ℕ) (a lens counts : List ℕ)
    → length (assign_lengths k counts a 0 lens) ≡ n
    → n ≤ length a
    → n < 2 ^ 15
    → All IsLen (assign_lengths k counts a 0 lens)
    → ((l : ℕ) → 0 < l → l ≤ k → count_of l (assign_lengths k counts a 0 lens) ≡ get_or counts l 0)
    → IsCanonical k (gen_codewords a lens counts k n)
unfolding gen_codewords canonical_codewords
gen_codewords-IsCanonical k n a lens counts size room small lens_ok h i l pos =
    let out = assign_lengths k counts a 0 lens in
    let whole : take n out ≡ out = take_all n out (omega (arith, size)) in
    let all : take (length out) out ≡ out = take_all (length out) out (omega arith) in
    let zeros : List ℕ = replicate 16 0 in
    let own = count_lens zeros out in
    let same : first_codewords counts (k - 1) 2 zeros ≡ first_codewords own (k - 1) 2 zeros =
      first_codewords-agree (k - 1) 2 counts own zeros (omega arith) (λ j g m.
        sym (h j (omega (arith, g)) (omega (arith, m)))
        ∙ sym (counted out lens_ok j (omega (arith, g)) (omega (arith, size, small)))) in
    rw (whole, all)
      (write-assign (first_codewords counts (k - 1) 2 zeros) out a i (omega (arith, size, room)) l
          pos
        ∙ ap (λ t. get_or (assign_codewords t out) i 0) same
        ∙ sym (
            get_or-append_front (assign_codewords (first_codewords own (k - 1) 2 zeros) out)
              (drop (length out) (write_codewords (first_codewords counts (k - 1) 2 zeros) out a)) i
              0
              (omega
                (arith, l, length-assign_codewords (first_codewords own (k - 1) 2 zeros) out))))
  where
    counted :
        (xs : List ℕ)
        → All IsLen xs
        → (j : ℕ) → 0 < j
        → length xs < 2 ^ 31
        → get_or (count_lens (replicate 16 0) xs) j 0 ≡ count_of j xs
    counted xs ok j above few =
        get_or-count_lens (replicate 16 0) xs j refl ok (omega (arith, zero_at 16 j, few)) above
        ∙ omega (arith, zero_at 16 j)
      where
        zero_at : (m i : ℕ) → get_or {A = ℕ} (replicate m 0) i 0 ≡ 0
        zero_at zero i = refl
        zero_at (suc m) zero = refl
        zero_at (suc m) (suc i) = zero_at m i
