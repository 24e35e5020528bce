-- ===== src/Compress/Huffman/Prefix.antt =====
-- The codewords of `canonical_codewords` of src/compress/huffman.rs form a prefix code.
use zenflate.Prelude.{
  ℕ, suc, ◌+◌, ◌-◌, ◌*◌, ◌/◌, ◌%◌, ◌^◌, ◌≤◌, ◌<◌, List, length, get_or, take, All, ltb, arith, ◌≡◌,
  ◌≢◌, refl, sym, ap, ◌∙◌, inl, inr, Bool-cases, ltb→lt, ltb→ge,
}
use zenflate.Prelude.Arith.{two_pow_suc, two_pow_pos, div_two_pow-lt}
use zenflate.Compress.Huffman.{canonical_codewords}
use zenflate.Compress.Huffman.Reverse.{
  reverse_bits, reverse_codeword-exact, reverse_bits-prefix, reverse_bits-injective,
}
use zenflate.Compress.Huffman.Weight.{
  count_of, weight, weight-suc, weight-add, weight-le, count_of-take, count_of-grows,
}
use zenflate.Compress.Huffman.Assign.{IsLen, codeword_of, get_or-canonical_codewords}

-- The codewords up to a length end where those of the next length start.
codeword_of-lt :
    (lens : List ℕ) (i : ℕ)
    → i < length lens
    → 0 < get_or lens i 0
    → codeword_of lens i < weight (get_or lens i 0) lens
codeword_of-lt lens i h pos =
    let l = get_or lens i 0 in
    let e : suc (l - 1) ≡ l = omega (arith, pos) in
    omega (
      arith,
      count_of-take l i lens h refl,
      weight-suc (l - 1) lens,
      ap (λ (t : ℕ). weight t lens) e,
      ap (λ (t : ℕ). count_of t lens) e,
    )

double_mul : (d w : ℕ) → 2 ^ suc d * w ≡ 2 * (2 ^ d * w)
double_mul d w = ap (λ (t : ℕ). t * w) (two_pow_suc d) ∙ grind arith

le-div : (c a b : ℕ) → 0 < c → c * a ≤ b → a ≤ b / c
le-div c a b pos h = grind arith

-- A longer codeword starts above every shorter one.
codeword_of-above :
    (lens : List ℕ) (i j : ℕ)
    → i < length lens
    → 0 < get_or lens i 0
    → get_or lens i 0 < get_or lens j 0
    → codeword_of lens i < codeword_of lens j / 2 ^ (get_or lens j 0 - get_or lens i 0)
codeword_of-above lens i j h pos lt =
    let l = get_or lens i 0 in
    let k = get_or lens j 0 in
    let d = k - 1 - l in
    let e : d + l ≡ k - 1 = omega (arith, lt) in
    let f : k - l ≡ suc d = omega (arith, lt) in
    let far : 2 ^ suc d * weight l lens ≤ codeword_of lens j =
      omega (
        arith,
        weight-add d l lens,
        ap (λ (t : ℕ). weight t lens) e,
        double_mul d (weight l lens),
      ) in
    let low = le-div (2 ^ suc d) (weight l lens) (codeword_of lens j) (two_pow_pos (suc d)) far in
    omega (arith, low, codeword_of-lt lens i h pos, ap (λ (t : ℕ). codeword_of lens j / 2 ^ t) f)

-- Two codewords of a length differ.
codeword_of-apart :
    (lens : List ℕ) (i j : ℕ)
    → i < length lens
    → j < length lens
    → i ≢ j
    → get_or lens i 0 ≡ get_or lens j 0
    → codeword_of lens i ≢ codeword_of lens j
codeword_of-apart lens i j h g ne e same = elim (Bool-cases (ltb i j)) [
  | inl a ↦
      let l = get_or lens i 0 in
      let more = count_of-grows l i j lens (ltb→lt i j a) h refl in omega (arith, more, same, moved)
  | inr a ↦
      let k = get_or lens j 0 in
      let below : j < i = omega (arith, ltb→ge i j a, ne) in
      let more = count_of-grows k j i lens below g refl in omega (arith, more, same, moved_back)
]
  where
    moved :
        codeword_of lens j
        ≡ 2 * weight (get_or lens i 0 - 1) lens + count_of (get_or lens i 0) (take j lens)
    moved = ap (λ (t : ℕ). 2 * weight (t - 1) lens + count_of t (take j lens)) (sym e)

    moved_back :
        codeword_of lens i
        ≡ 2 * weight (get_or lens j 0 - 1) lens + count_of (get_or lens j 0) (take i lens)
    moved_back = ap (λ (t : ℕ). 2 * weight (t - 1) lens + count_of t (take i lens)) e

codeword_of-fits :
    (lens : List ℕ) (m i : ℕ)
    → weight m lens ≤ 2 ^ m
    → i < length lens
    → 0 < get_or lens i 0
    → get_or lens i 0 ≤ m
    → codeword_of lens i < 2 ^ get_or lens i 0
codeword_of-fits lens m i fits h pos le =
    omega (arith, codeword_of-lt lens i h pos, weight-le m (get_or lens i 0) lens le fits)

-- A symbol with a length gets its codeword, reversed.
pub codeword-reversed :
    (lens codewords : List ℕ) (m i : ℕ)
    → All IsLen lens
    → 0 < m
    → m < 16
    → length lens < 2 ^ 15
    → weight m lens ≤ 2 ^ m
    → i < length lens
    → 0 < get_or lens i 0
    → get_or lens i 0 ≤ m
    → get_or (canonical_codewords (length lens) lens codewords m) i 0
      ≡ reverse_bits (get_or lens i 0) (codeword_of lens i)
codeword-reversed lens codewords m i hl pos small few fits h used le =
    get_or-canonical_codewords lens codewords m i hl pos small few fits h used le
    ∙ reverse_codeword-exact (codeword_of lens i) (get_or lens i 0)
        (codeword_of-fits lens m i fits h used le) (omega (arith, le, small))

-- No codeword is a prefix of another. Codewords are written from their lowest bit on: for two
-- symbols whose lengths are `l` and at least `l`, the `l` low bits of the second codeword are not
-- the first. The lengths take no more than the code space, and there are fewer than 2 ^ 15 symbols.
pub canonical_codewords-IsPrefix :
    (lens codewords : List ℕ) (m i j : ℕ)
    → All IsLen lens
    → 0 < m
    → m < 16
    → length lens < 2 ^ 15
    → weight m lens ≤ 2 ^ m
    → i < length lens
    → j < length lens
    → i ≢ j
    → 0 < get_or lens i 0
    → get_or lens i 0 ≤ get_or lens j 0
    → get_or lens j 0 ≤ m
    → get_or (canonical_codewords (length lens) lens codewords m) j 0 % 2 ^ get_or lens i 0
      ≢ get_or (canonical_codewords (length lens) lens codewords m) i 0
canonical_codewords-IsPrefix lens codewords m i j hl pos small few fits hi hj ne used le top same =
    let l = get_or lens i 0 in
    let k = get_or lens j 0 in
    let x = codeword_of lens i in
    let y = codeword_of lens j in
    let d = k - l in
    let e : k ≡ d + l = omega (arith, le) in
    let first =
      codeword-reversed lens codewords m i hl pos small few fits hi used (omega (arith, le, top)) in
    let second =
      codeword-reversed lens codewords m j hl pos small few fits hj (omega (arith, used, le)) top in
    let y_small : y < 2 ^ (d + l) = omega (
      arith,
      codeword_of-fits lens m j fits hj (omega (arith, used, le)) top,
      ap (λ (t : ℕ). 2 ^ t) e,
    ) in
    let start : reverse_bits l (y / 2 ^ d) ≡ reverse_bits l x =
      sym (reverse_bits-prefix d l y)
      ∙ ap (λ (t : ℕ). reverse_bits t y % 2 ^ l) (sym e)
      ∙ ap (λ (t : ℕ). t % 2 ^ l) (sym second)
      ∙ same
      ∙ first in
    let met : y / 2 ^ d ≡ x =
      reverse_bits-injective l (y / 2 ^ d) x (div_two_pow-lt y d l y_small)
        (codeword_of-fits lens m i fits hi used (omega (arith, le, top))) start in
    elim (Bool-cases (ltb l k)) [
      | inl a ↦ omega (arith, met, codeword_of-above lens i j hi used (ltb→lt l k a))
      | inr a ↦
          let equal : l ≡ k = omega (arith, ltb→ge l k a, le) in
          let none : d ≡ 0 = omega (arith, equal) in
          let whole : y / 2 ^ d ≡ y = ap (λ (t : ℕ). y / 2 ^ t) none ∙ omega arith in
          codeword_of-apart lens i j hi hj ne equal (sym met ∙ whole)
    ]
