-- ===== src/Compress/Huffman/Weight.antt =====
-- The codeword lengths of src/compress/huffman.rs: how many codewords of each length there are, and
-- how much of the code space the lengths take.
use zenflate.Prelude.{
  ℕ, zero, suc, ◌+◌, ◌-◌, ◌*◌, ◌^◌, ◌≤◌, ◌<◌, List, [], ◌∷◌, length, get_or, take, leb, ltb, ◌==◌,
  ◌&&◌, if◌then◌else◌, arith, ◌≡◌, refl, ap, ◌∙◌, inl, inr, Bool-cases, leb→le, leb→gt, ==_iff,
}
use zenflate.Prelude.Arith.{two_pow_suc, two_pow_pos, two_pow_add}

-- The codewords of length `k`.
abbrev pub count_of : ℕ → List ℕ → ℕ
count_of k [] = 0
count_of k (l ∷ lens) = (if l == k then 1 else 0) + count_of k lens

-- The code space in units of 2 ^ -k that the lengths up to `k` take; the code is complete when it
-- is 2 ^ k.
abbrev pub share : ℕ → ℕ → ℕ
share k l = if ltb 0 l && leb l k then 2 ^ (k - l) else 0

abbrev pub weight : ℕ → List ℕ → ℕ
weight k [] = 0
weight k (l ∷ lens) = share k l + weight k lens

share-suc : (k l : ℕ) → share (suc k) l ≡ 2 * share k l + (if l == suc k then 1 else 0)
share-suc k l = elim (Bool-cases (leb l k)) [
  | inl a ↦
      let le = leb→le l k a in
      let e : suc k - l ≡ suc (k - l) = omega (arith, le) in
      let p : 2 ^ (suc k - l) ≡ 2 * 2 ^ (k - l) = ap (λ (t : ℕ). 2 ^ t) e ∙ two_pow_suc (k - l) in
      ground (arith, le, p)
  | inr a ↦
      let gt = leb→gt l k a in
      elim (Bool-cases (l == suc k)) [
        | inl b ↦
            let same : l ≡ suc k = (==_iff l (suc k)).0 b in
            let z : suc k - l ≡ 0 = omega (arith, same) in
            let p : 2 ^ (suc k - l) ≡ 1 = ap (λ (t : ℕ). 2 ^ t) z in ground (arith, gt, same, p)
        | inr b ↦ ground (arith, gt, b)
      ]
]

pub weight-suc :
    (k : ℕ) (lens : List ℕ) → weight (suc k) lens ≡ 2 * weight k lens + count_of (suc k) lens
weight-suc k [] = refl
weight-suc k (l ∷ lens) = omega (arith, share-suc k l, weight-suc k lens)

pub weight-add : (d k : ℕ) (lens : List ℕ) → 2 ^ d * weight k lens ≤ weight (d + k) lens
weight-add zero k lens =
    let e : 0 + k ≡ k = omega arith in omega (arith, ap (λ (t : ℕ). weight t lens) e)
weight-add (suc d) k lens =
    let e : suc d + k ≡ suc (d + k) = omega arith in
    let twice : 2 ^ suc d * weight k lens ≡ 2 * (2 ^ d * weight k lens) =
      ap (λ (t : ℕ). t * weight k lens) (two_pow_suc d) ∙ grind arith in
    omega
      (arith, twice, weight-add d k lens, weight-suc (d + k) lens, ap (λ (t : ℕ). weight t lens) e)

-- Lengths that fit into the code space of codewords of length `m` fit for each smaller length.
pub weight-le : (m k : ℕ) (lens : List ℕ) → k ≤ m → weight m lens ≤ 2 ^ m → weight k lens ≤ 2 ^ k
weight-le m k lens h fits =
    let d = m - k in
    let e : d + k ≡ m = omega (arith, h) in
    let all : 2 ^ d * weight k lens ≤ 2 ^ d * 2 ^ k = omega (
      arith,
      fits,
      weight-add d k lens,
      ap (λ (t : ℕ). weight t lens) e,
      two_pow_add d k,
      ap (λ (t : ℕ). 2 ^ t) e,
    ) in
    cancel_mul (2 ^ d) (weight k lens) (2 ^ k) (two_pow_pos d) all
  where
    cancel_mul : (c a b : ℕ) → 0 < c → c * a ≤ c * b → a ≤ b
    cancel_mul c a b pos le = grind arith

-- The next codeword of the length `l` at the i-th symbol.
pub count_of-take :
    (l i : ℕ) (lens : List ℕ)
    → i < length lens
    → get_or lens i 0 ≡ l
    → count_of l (take i lens) < count_of l lens
count_of-take l i [] h e = absurd (omega (arith, h))
count_of-take l zero (x ∷ lens) h e = let same = (==_iff x l).1 e in rw same (omega arith)
count_of-take l (suc i) (x ∷ lens) h e = omega (arith, count_of-take l i lens (omega (arith, h)) e)

pub count_of-grows :
    (l i j : ℕ) (lens : List ℕ)
    → i < j
    → i < length lens
    → get_or lens i 0 ≡ l
    → count_of l (take i lens) < count_of l (take j lens)
count_of-grows l i j [] h g e = absurd (omega (arith, g))
count_of-grows l i zero (x ∷ lens) h g e = absurd (omega (arith, h))
count_of-grows l zero (suc j) (x ∷ lens) h g e =
    let same = (==_iff x l).1 e in rw same (omega arith)
count_of-grows l (suc i) (suc j) (x ∷ lens) h g e =
    omega (arith, count_of-grows l i j lens (omega (arith, h)) (omega (arith, g)) e)

pub weight-zero : (lens : List ℕ) → weight 0 lens ≡ 0
weight-zero [] = refl
weight-zero (l ∷ lens) = let z : share 0 l ≡ 0 = ground arith in omega (arith, z, weight-zero lens)
