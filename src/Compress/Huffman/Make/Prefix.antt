-- ===== src/Compress/Huffman/Make/Prefix.antt =====
-- `make_huffman_code` of src/compress/huffman.rs: the codewords form a prefix code.
use zenflate.Prelude.{
  ℕ, zero, suc, ◌+◌, ◌%◌, ◌^◌, ◌≤◌, ◌<◌, bit_and, List, [], ◌∷◌, length, get_or, set, replicate,
  All, All-get_or, not, ltb, ◌==◌, if◌then◌else◌, arith, ◌≡◌, ◌≢◌, ◌⊎◌, refl, sym, ap, ◌∙◌, inl,
  inr, Bool-cases, ltb→lt, ltb→ge, ==_iff, length-set,
}
use mathlib.Core.Path.{subst}
use zenflate.Outcome.{Outcome, ok, err, panic, out_of_fuel}
use zenflate.Compress.Huffman.Weight.{count_of, weight}
use zenflate.Compress.Huffman.Tree.Space.{space}
use zenflate.Compress.Huffman.Assign.{codeword_of}
use zenflate.Compress.Huffman.Prefix.{codeword-reversed, canonical_codewords-IsPrefix}
use zenflate.Compress.Huffman.Reverse.{reverse_bits-lt}
use zenflate.Prelude.Bits.{bit_and_mask}
use zenflate.Compress.Huffman.Tree.{symbol_mask}
use zenflate.Compress.Huffman.Tree.Words.{symbol}
use zenflate.Compress.Huffman.Tree.Complete.{tree_counts-IsComplete}
use zenflate.Compress.Huffman.Make.{
  sort_symbols, assign_run, assign_lengths, gen_codewords, two_symbols, make_huffman_code,
}
use zenflate.Compress.Huffman.Make.Put.{Distinct}
use zenflate.Compress.Huffman.Make.Lengths.{
  symbols_from, codewords, Used, assign_lengths-All, assign_lengths-Used, assign_lengths-count_of,
  assign_lengths-weight,
}
use zenflate.Compress.Huffman.Make.Sort.{Sorted, sort_symbols-Sorted}
use zenflate.Compress.Huffman.Make.Code.{
  total-codewords, same_symbols, two_symbols-IsCode, other_symbol-bounds, first_symbol-lt, code-eq,
}
use zenflate.Compress.Huffman.Make.Codewords.{IsCanonical, gen_codewords-IsCanonical}
use zenflate.Compress.Huffman.Make.Two.{
  All-IsLen, two_symbols-IsCanonical, two_symbols-used, length-two_symbols,
}

length-assign_run :
    (count len : ℕ) (a : List ℕ) (i : ℕ) (lens : List ℕ)
    → length (assign_run count len a i lens) ≡ length lens
unfolding assign_run
length-assign_run zero len a i lens = refl
length-assign_run (suc count) len a i lens =
    let s = bit_and (get_or a i 0) symbol_mask in
    length-assign_run count len a (i + 1) (set lens s len) ∙ length-set lens s len

length-assign_lengths :
    (k : ℕ) (cs a : List ℕ) (i : ℕ) (lens : List ℕ)
    → length (assign_lengths k cs a i lens) ≡ length lens
unfolding assign_lengths
length-assign_lengths zero cs a i lens = refl
length-assign_lengths (suc k) cs a i lens =
    let count = get_or cs (suc k) 0 in
    length-assign_lengths k cs a (i + count) (assign_run count (suc k) a i lens)
    ∙ length-assign_run count (suc k) a i lens

-- A code as `make_huffman_code` leaves it: lengths for the symbols that fill the code space, none
-- above the limit, the canonical codewords of these lengths, and a length for each symbol that has a
-- frequency.
pub record Code (n k : ℕ) (freqs : List ℕ) (r : List ℕ × List ℕ) : Type 0 where
  pub size : length r.0 ≡ n
  pub complete : weight k r.0 ≡ 2 ^ k
  pub short : All (λ (l : ℕ). l ≤ k) r.0
  pub canonical : IsCanonical k r
  pub used : (s : ℕ) → s < n → 0 < get_or freqs s 0 → 0 < get_or r.0 s 0

-- The second symbol of a code of two.
abbrev other_of : ℕ → ℕ
other_of x = if not (x == 0) then x else 1

-- Where fewer than two symbols are used, they are the two of the code.
only_two :
    (n : ℕ) (freqs : List ℕ) (r : ℕ × List ℕ × List ℕ) (s : ℕ)
    → Sorted n freqs r
    → r.0 < 2
    → s < n
    → 0 < get_or freqs s 0
    → (s ≡ 0) ⊎ (s ≡ other_of (if ltb 0 r.0 then bit_and (get_or r.2 0 0) symbol_mask else 0))
only_two n freqs r s v few l some = elim (Bool-cases (ltb 0 r.0)) [
  | inr t ↦
      let z : r.0 ≡ 0 = omega (arith, ltb→ge 0 r.0 t) in
      absurd
        (omega (arith, v.all_used s l some, ap (λ (i : ℕ). count_of s (symbols_from r.2 0 i)) z))
  | inl t ↦
      let z : r.0 ≡ 1 = omega (arith, ltb→lt 0 r.0 t, few) in
      let once : 0 < count_of s (symbols_from r.2 0 1) =
        subst (λ (i : ℕ). 0 < count_of s (symbols_from r.2 0 i)) z (v.all_used s l some) in
      let same : symbol r.2 0 ≡ s = one_symbol (symbol r.2 0) s once in
      rw (t, bit_and_mask 10 (get_or r.2 0 0)) (pick (symbol r.2 0) s same)
]
  where
    one_symbol : (x y : ℕ) → 0 < count_of y (x ∷ []) → x ≡ y
    one_symbol x y pos = elim (Bool-cases (x == y)) [
      | inl u ↦ (==_iff x y).0 u
      | inr u ↦ absurd (ground (arith, pos, u))
    ]

    pick : (x y : ℕ) → x ≡ y → (y ≡ 0) ⊎ (y ≡ other_of x)
    pick x y e = elim (Bool-cases (x == 0)) [
      | inl u ↦ inl (sym e ∙ (==_iff x 0).0 u)
      | inr u ↦ inr (rw u (sym e))
    ]

two_symbols-Code :
    (n k i : ℕ) (freqs lens codes : List ℕ)
    → 2 ≤ n
    → 1 ≤ k
    → k < 16
    → n < 2 ^ 15
    → 1 ≤ i
    → i < n
    → length lens ≡ n
    → n ≤ length codes
    → ((s : ℕ) → s < n → 0 < get_or freqs s 0 → (s ≡ 0) ⊎ (s ≡ i))
    → Code n k freqs (two_symbols n i lens codes)
two_symbols-Code n k i freqs lens codes least long limit few pos inside size room which =
    let code = two_symbols-IsCode n k least long i lens codes pos inside size in
    record {
      size = length-two_symbols n i lens codes size;
      complete = code.0;
      short = code.1;
      canonical = two_symbols-IsCanonical n k i lens codes long limit few pos inside size room;
      used = λ s l some.
          two_symbols-used n k i lens codes long limit few pos inside size s (which s l some);
    }

gen_codewords-Code :
    (n k : ℕ) (freqs a lens counts : List ℕ)
    → k < 16
    → n ≤ 288
    → length lens ≡ n
    → n ≤ length a
    → Used a lens (codewords k counts)
    → get_or counts 0 0 ≡ 0
    → space k counts ≡ 2 ^ k
    → ((s : ℕ)
        → s < n
        → 0 < get_or freqs s 0
        → 0 < count_of s (symbols_from a 0 (codewords k counts)))
    → Code n k freqs (gen_codewords a lens counts k n)
unfolding gen_codewords
gen_codewords-Code n k freqs a lens counts limit most size room used none full some_used =
    let whole = length-assign_lengths k counts a 0 lens ∙ size in
    let short = assign_lengths-All a lens counts k used in
    record {
      size = whole;
      complete = assign_lengths-weight a lens counts k used none ∙ full;
      short = short;
      canonical =
          gen_codewords-IsCanonical k n a lens counts whole room (omega (arith, most))
            (All-IsLen k (assign_lengths k counts a 0 lens) limit short)
            (assign_lengths-count_of a lens counts k used);
      used = λ s l some. assign_lengths-Used a lens counts k s used (some_used s l some);
    }

at_least_one : (j : ℕ) → 2 ≤ 2 ^ j → 1 ≤ j
at_least_one zero h = absurd (omega (arith, h))
at_least_one (suc j) h = omega arith

-- For any frequencies of between 2 and 288 symbols, in slices that have an entry for each, and a
-- limit up to 15 that leaves a codeword for each: there is no index out of bounds in the tree and no
-- subtraction below zero, the lengths are those of a complete code, none of them above the limit,
-- and each used symbol has the canonical codeword of its length.
pub make_huffman_code-Code :
    (E : Type 0) (num_syms max_codeword_len : ℕ) (freqs lens codewords : List ℕ)
    → 2 ≤ num_syms
    → num_syms ≤ 288
    → num_syms ≤ 2 ^ max_codeword_len
    → max_codeword_len < 16
    → length freqs ≡ num_syms
    → length lens ≡ num_syms
    → num_syms ≤ length codewords
    → (r : List ℕ × List ℕ) × (make_huffman_code {E = E} num_syms max_codeword_len freqs lens
          codewords
        ≡ ok r)
      × Code num_syms max_codeword_len freqs r
unfolding make_huffman_code
make_huffman_code-Code E n k freqs lens cw least most fits limit size size_lens room =
    let long : 1 ≤ k = at_least_one k (omega (arith, least, fits)) in
    let r = sort_symbols n freqs lens cw in
    let v = sort_symbols-Sorted n freqs lens cw least most size size_lens room in
    elim (Bool-cases (ltb r.0 2)) [
      | inl t ↦
          let x = if ltb 0 r.0 then bit_and (get_or r.2 0 0) symbol_mask else 0 in
          let small : x < n = first_symbol-lt n freqs r least v in
          let (pos, inside) = other_symbol-bounds n x least small in
          let i = if not (x == 0) then x else 1 in
          (
            two_symbols n i r.1 r.2,
            rw t refl,
            two_symbols-Code n k i freqs r.1 r.2 least long limit (omega (arith, most)) pos inside
                v.size v.room (λ s l some. only_two n freqs r s v (ltb→lt r.0 2 t) l some),
          )
      | inr t ↦
          let two = ltb→ge r.0 2 t in
          let (marked, counts, eq, (full, every, none), kept) =
            tree_counts-IsComplete E r.2 r.0 k (replicate 16 0) two (omega (arith, v.few, v.room))
              (omega (arith, limit)) (omega (arith, v.few, most)) (omega (arith, v.few, fits)) in
          let used_all : codewords k counts ≡ r.0 =
            omega (arith, total-codewords k counts, every, none) in
          let same = same_symbols r.2 marked kept.symbols 0 r.0 in
          let used : Used marked r.1 (codewords k counts) = rw (used_all) record {
            apart = subst Distinct (sym same) v.used.apart;
            inside = subst (All (λ (s : ℕ). s < length r.1)) (sym same) v.used.inside;
            others = λ j away. v.used.others j (subst (All (λ (s : ℕ). s ≢ j)) same away);
          } in
          (
            gen_codewords marked r.1 counts k n,
            rw t (code-eq E k n r.0 r.1 r.2 marked counts eq),
            gen_codewords-Code n k freqs marked r.1 counts limit most v.size
                (omega (arith, v.room, kept.size)) used none full
                (λ s l some.
                  subst (λ (t : ℕ). 0 < count_of s (symbols_from marked 0 t)) (sym used_all)
                    (subst (λ (t : List ℕ). 0 < count_of s t) (sym same) (v.all_used s l some))),
          )
    ]

code-IsPrefix :
    (n k : ℕ) (freqs : List ℕ) (r : List ℕ × List ℕ) (i j : ℕ)
    → Code n k freqs r
    → 0 < k
    → k < 16
    → n < 2 ^ 15
    → i < n
    → j < n
    → i ≢ j
    → 0 < get_or r.0 i 0
    → get_or r.0 i 0 ≤ get_or r.0 j 0
    → get_or r.1 j 0 % 2 ^ get_or r.0 i 0 ≢ get_or r.1 i 0
code-IsPrefix n k freqs r i j c pos limit few hi hj ne used le same =
    let inside : i < length r.0 = omega (arith, c.size, hi) in
    let inside_j : j < length r.0 = omega (arith, c.size, hj) in
    let eq_i = c.canonical i inside used in
    let eq_j = c.canonical j inside_j (omega (arith, used, le)) in
    canonical_codewords-IsPrefix r.0 r.1 k i j (All-IsLen k r.0 limit c.short) pos limit
      (omega (arith, c.size, few)) (omega (arith, c.complete)) inside inside_j ne used le
      (All-get_or (λ (l : ℕ). l ≤ k) r.0 j 0 c.short (omega arith))
      (ap (λ (t : ℕ). t % 2 ^ get_or r.0 i 0) (sym eq_j) ∙ same ∙ eq_i)

-- Each used symbol's codeword fits its length.
pub code-lt :
    (n k : ℕ) (freqs : List ℕ) (r : List ℕ × List ℕ) (s : ℕ)
    → Code n k freqs r
    → 0 < k
    → k < 16
    → n < 2 ^ 15
    → s < n
    → 0 < get_or r.0 s 0
    → get_or r.1 s 0 < 2 ^ get_or r.0 s 0
code-lt n k freqs r s c pos limit few h used =
    let inside : s < length r.0 = omega (arith, c.size, h) in
    let len = get_or r.0 s 0 in
    let word =
      c.canonical s inside used
      ∙ codeword-reversed r.0 r.1 k s (All-IsLen k r.0 limit c.short) pos limit
          (omega (arith, c.size, few)) (omega (arith, c.complete)) inside used
          (All-get_or (λ (l : ℕ). l ≤ k) r.0 s 0 c.short (omega arith)) in
    omega (arith, word, reverse_bits-lt len (codeword_of r.0 s))

abbrev result_of {ℓ} : {E : Type ℓ} → Outcome E (List ℕ × List ℕ) → List ℕ × List ℕ
result_of (ok r) = r
result_of (err e) = ([], [])
result_of panic = ([], [])
result_of out_of_fuel = ([], [])

-- No codeword of the code that `make_huffman_code` returns is a prefix of another: for two symbols
-- whose lengths are `l` and at least `l`, the `l` low bits of the second codeword are not the first.
-- The conditions are those of `make_huffman_code-Code`.
pub make_huffman_code-IsPrefix :
    (E : Type 0) (num_syms max_codeword_len : ℕ) (freqs lens codewords : List ℕ)
    (r : List ℕ × List ℕ) (i j : ℕ)
    → 2 ≤ num_syms
    → num_syms ≤ 288
    → num_syms ≤ 2 ^ max_codeword_len
    → max_codeword_len < 16
    → length freqs ≡ num_syms
    → length lens ≡ num_syms
    → num_syms ≤ length codewords
    → make_huffman_code {E = E} num_syms max_codeword_len freqs lens codewords ≡ ok r
    → i < num_syms
    → j < num_syms
    → i ≢ j
    → 0 < get_or r.0 i 0
    → get_or r.0 i 0 ≤ get_or r.0 j 0
    → get_or r.1 j 0 % 2 ^ get_or r.0 i 0 ≢ get_or r.1 i 0
make_huffman_code-IsPrefix E n k freqs lens cw r i j least most fits limit size size_lens room eq =
    let (made, made_eq, code) =
      make_huffman_code-Code E n k freqs lens cw least most fits limit size size_lens room in
    let same : made ≡ r = ap result_of (sym made_eq ∙ eq) in
    code-IsPrefix n k freqs r i j (subst (Code n k freqs) same code)
      (at_least_one k (omega (arith, least, fits))) limit (omega (arith, most))
