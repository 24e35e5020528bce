-- ===== src/Compress/Huffman/Make/Loop.antt =====
-- `sort_symbols` of src/compress/huffman.rs: the whole loop that places the symbols.
use zenflate.Prelude.{
  ℕ, suc, ◌+◌, ◌^◌, ◌≤◌, ◌<◌, bit_or, List, [], ◌∷◌, ◌++◌, length, get_or, set, true, false, ◌==◌,
  arith, ◌≡◌, refl, sym, ap, ◌∙◌, inl, inr, Bool-cases, ==_iff, append_assoc, append_empty,
  length-append,
}
use mathlib.Core.Path.{subst}
use zenflate.Prelude.Words.{add32, shl32}
use zenflate.Compress.Huffman.Weight.{count_of}
use zenflate.Compress.Huffman.Tree.{num_symbol_bits}
use zenflate.Compress.Huffman.Make.{bucket, place}
use zenflate.Compress.Huffman.Make.Put.{count_of-append}
use zenflate.Compress.Huffman.Make.Buckets.{buckets, below-suc, below-length}
use zenflate.Compress.Huffman.Make.Place.{Placed, skip-Placed, entry-symbol}
use zenflate.Compress.Huffman.Make.Fill.{place-Placed}

bucket-zero : (n : ℕ) → bucket n 0 ≡ 0
unfolding bucket
bucket-zero n = omega arith

place-skip :
    (n s f : ℕ) (freqs counters lens symout : List ℕ)
    → (f == 0) ≡ true
    → place n s (f ∷ freqs) counters lens symout
      ≡ place n (s + 1) freqs counters (set lens s 0) symout
unfolding place
place-skip n s f freqs counters lens symout t = rw t refl

place-used :
    (n s f : ℕ) (freqs counters lens symout : List ℕ)
    → (f == 0) ≡ false
    → place n s (f ∷ freqs) counters lens symout
      ≡ place n
          (s + 1)
          freqs
          (set counters (bucket n f) (add32 (get_or counters (bucket n f) 0) 1))
          lens
          (set symout (get_or counters (bucket n f) 0) (bit_or s (shl32 f num_symbol_bits)))
unfolding place
place-used n s f freqs counters lens symout t = rw t refl

module _ (n : ℕ) (all : List ℕ) (least : 2 ≤ n) (most : n ≤ 288) (size : length all ≡ n) where
  part_of :
      (ps rest : List ℕ) (x b : ℕ)
      → all ≡ ps ++ (x ∷ rest)
      → count_of b (ps ++ (x ∷ [])) ≤ count_of b all
  part_of ps rest x b e =
      omega
        (arith, ap (count_of b) e, count_of-append b ps (x ∷ rest), count_of-append b ps (x ∷ []))

  bucket-pos : (f : ℕ) → (f == 0) ≡ false → (0 < bucket n f) × (bucket n f < n)
  unfolding bucket
  bucket-pos f t =
      let pos : 0 < f = ground (arith, t) in (omega (arith, pos, least), omega (arith, least))

  abbrev PlacedAll : List ℕ × List ℕ × List ℕ → Type 0
  PlacedAll r = Placed n all all r.0 r.1 r.2

  pub place-all :
      (freqs ps counters lens symout : List ℕ)
      → all ≡ ps ++ buckets n freqs
      → Placed n all ps counters lens symout
      → PlacedAll (place n (length ps) freqs counters lens symout)
  unfolding place
  place-all [] ps counters lens symout e v =
      subst (λ (ts : List ℕ). Placed n all ts counters lens symout) (sym (e ∙ append_empty ps)) v
  place-all (f ∷ freqs) ps counters lens symout e v =
      let x = bucket n f in
      let index = get_or counters x 0 in
      let entry = bit_or (length ps) (shl32 f num_symbol_bits) in
      let total : length all ≡ length ps + suc (length (buckets n freqs)) =
        ap length e ∙ length-append ps (x ∷ buckets n freqs) in
      let next : all ≡ (ps ++ (x ∷ [])) ++ buckets n freqs =
        e ∙ sym (append_assoc ps (x ∷ []) (buckets n freqs)) in
      let room : length ps < n = omega (arith, total, size) in
      let more : length ps + 1 ≡ length (ps ++ (x ∷ [])) = sym (length-append ps (x ∷ [])) in
      elim (Bool-cases (f == 0)) [
        | inl t ↦
            let z : f ≡ 0 = (==_iff f 0).0 t in
            let zero_bucket : x ≡ 0 = ap (bucket n) z ∙ bucket-zero n in
            let skipped : Placed n all (ps ++ (x ∷ [])) counters (set lens (length ps) 0) symout =
              rw zero_bucket (
                skip-Placed n all ps counters lens symout room v (λ b.
                  part_of ps (buckets n freqs) 0 b
                    (subst (λ (i : ℕ). all ≡ ps ++ (i ∷ buckets n freqs)) zero_bucket e))) in
            subst PlacedAll
              (sym (
                place-skip n (length ps) f freqs counters lens symout t
                ∙ ap (λ (i : ℕ). place n i freqs counters (set lens (length ps) 0) symout) more))
              (place-all freqs (ps ++ (x ∷ [])) counters (set lens (length ps) 0) symout next
                skipped)
        | inr t ↦
            let (pos, inside) = bucket-pos f t in
            let small : index < 2 ^ 31 = omega (
              arith,
              v.at x pos inside,
              v.part x,
              below-suc x all pos,
              below-length (suc x) all,
              size,
              most,
            ) in
            let bumped : add32 index 1 ≡ index + 1 = omega (arith, small) in
            let placed =
              place-Placed n all x entry ps counters lens symout pos inside room size
                (λ b. part_of ps (buckets n freqs) x b e)
                (entry-symbol (length ps) f (omega (arith, room, most))) v in
            subst PlacedAll
              (sym (
                place-used n (length ps) f freqs counters lens symout t
                ∙ ap
                    (λ (i : ℕ).
                      place n i freqs (set counters x (add32 index 1)) lens
                        (set symout index entry))
                    more
                ∙ ap
                    (λ (i : ℕ).
                      place n (length (ps ++ (x ∷ []))) freqs (set counters x i) lens
                        (set symout index entry))
                    bumped))
              (place-all freqs (ps ++ (x ∷ [])) (set counters x (index + 1)) lens
                (set symout index entry) next placed)
      ]
