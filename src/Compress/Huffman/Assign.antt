-- ===== src/Compress/Huffman/Assign.antt =====
-- `canonical_codewords` of src/compress/huffman.rs: the codeword that a symbol gets.
use zenflate.Prelude.{
  ℕ, zero, suc, ◌+◌, ◌-◌, ◌*◌, ◌^◌, ◌≤◌, ◌<◌, List, [], ◌∷◌, ◌++◌, length, get_or, set, take, drop,
  replicate, All, ltb, ◌==◌, if◌then◌else◌, arith, ◌≡◌, refl, ap, ◌∙◌, inl, inr, Bool-cases, ==_iff,
  ltb→ge, lt→ltb, length-set, take_all,
}
use zenflate.Prelude.Arith.{two_pow_mono}
use zenflate.Prelude.Range.{get_or-append_front}
use zenflate.Prelude.Words.{add32, shl32}
use zenflate.Compress.Huffman.{
  reverse_codeword, count_lens, first_codewords, assign_codewords, canonical_codewords,
}
use zenflate.Compress.Huffman.Weight.{count_of, weight, weight-suc, weight-le, weight-zero}

-- A length that a codeword can have, or 0.
abbrev pub IsLen : ℕ → Type 0
IsLen l = l < 16

get_or-set_at :
    (xs : List ℕ) (i j v : ℕ)
    → i < length xs
    → get_or (set xs i v) j 0 ≡ (if i == j then v else get_or xs j 0)
get_or-set_at [] i j v h = absurd (omega arith)
get_or-set_at (x ∷ xs) zero zero v h = refl
get_or-set_at (x ∷ xs) zero (suc j) v h = ground arith
get_or-set_at (x ∷ xs) (suc i) zero v h = ground arith
get_or-set_at (x ∷ xs) (suc i) (suc j) v h = ground (arith, get_or-set_at xs i j v (omega arith))

-- One step of a table of counters: `table[l] += 1` where `l` is not 0.
abbrev step : List ℕ → ℕ → List ℕ
step table l = if ltb 0 l then set table l (add32 (get_or table l 0) 1) else table

length-step : (table : List ℕ) (l : ℕ) → length (step table l) ≡ length table
length-step table l = elim (Bool-cases (ltb 0 l)) [
  | inl a ↦ rw a (length-set table l (add32 (get_or table l 0) 1))
  | inr a ↦ rw a refl
]

get_or-step :
    (table : List ℕ) (l k : ℕ)
    → 0 < k
    → l < length table
    → get_or table k 0 + 1 < 2 ^ 32
    → get_or (step table l) k 0 ≡ get_or table k 0 + (if l == k then 1 else 0)
get_or-step table l k pos h small = elim (Bool-cases (ltb 0 l)) [
  | inl a ↦ rw a (
      get_or-set_at table l k (add32 (get_or table l 0) 1) h ∙ elim (Bool-cases (l == k)) [
        | inl b ↦
            let same : l ≡ k = (==_iff l k).0 b in
            rw b (omega (arith, small, ap (λ (t : ℕ). get_or table t 0) same))
        | inr b ↦ rw b (omega arith)
      ])
  | inr a ↦ rw a (ground (arith, ltb→ge 0 l a))
]

-- The counter `k` has room for `n` more.
abbrev HasRoom : ℕ → ℕ → List ℕ → Type 0
HasRoom k n table = get_or table k 0 + n < 2 ^ 32

step-HasRoom :
    (k n : ℕ) (table : List ℕ) (l : ℕ)
    → 0 < k
    → l < length table
    → HasRoom k (suc n) table
    → HasRoom k n (step table l)
step-HasRoom k n table l pos h room =
    let e = get_or-step table l k pos h (omega (arith, room)) in ground (arith, e, room)

pub get_or-count_lens :
    (table lens : List ℕ) (k : ℕ)
    → length table ≡ 16
    → All IsLen lens
    → HasRoom k (length lens) table
    → 0 < k
    → get_or (count_lens table lens) k 0 ≡ get_or table k 0 + count_of k lens
unfolding count_lens
get_or-count_lens table [] k size h room pos = omega arith
get_or-count_lens table (l ∷ lens) k size (p, h) room pos =
    let e = get_or-step table l k pos (omega (arith, size, p)) (omega (arith, room)) in
    let behind =
      get_or-count_lens (step table l) lens k (length-step table l ∙ size) h
        (step-HasRoom k (length lens) table l pos (omega (arith, size, p)) room) pos in
    omega (arith, e, behind)

-- The symbol `i` gets the codeword that its length has reached.
get_or-assign_codewords :
    (next lens : List ℕ) (i : ℕ)
    → length next ≡ 16
    → All IsLen lens
    → HasRoom (get_or lens i 0) (length lens) next
    → i < length lens
    → 0 < get_or lens i 0
    → get_or (assign_codewords next lens) i 0
      ≡ reverse_codeword
          (get_or next (get_or lens i 0) 0 + count_of (get_or lens i 0) (take i lens))
          (get_or lens i 0)
unfolding assign_codewords
get_or-assign_codewords next [] i size h room lo pos = absurd (omega (arith, lo))
get_or-assign_codewords next (l ∷ lens) zero size h room lo pos =
    let same : get_or next l 0 ≡ get_or next l 0 + 0 = omega arith in
    rw (lt→ltb 0 l pos) (ap (λ (t : ℕ). reverse_codeword t l) same)
get_or-assign_codewords next (l ∷ lens) (suc i) size (p, h) room lo pos =
    let k = get_or lens i 0 in
    let e = get_or-step next l k pos (omega (arith, size, p)) (omega (arith, room)) in
    let same : get_or (step next l) k 0 + count_of k (take i lens)
        ≡ get_or next k 0 + count_of k (l ∷ take i lens) =
      omega (arith, e) in
    get_or-assign_codewords (step next l) lens i (length-step next l ∙ size) h
      (step-HasRoom k (length lens) next l pos (omega (arith, size, p)) room) (omega (arith, lo))
      pos
    ∙ ap (λ (t : ℕ). reverse_codeword t k) same

length-first_codewords :
    (counts : List ℕ) (k len : ℕ) (next : List ℕ)
    → length (first_codewords counts k len next) ≡ length next
unfolding first_codewords
length-first_codewords counts zero len next = refl
length-first_codewords counts (suc k) len next =
    length-first_codewords counts k (len + 1) (set next len _) ∙ length-set next len _

-- The first codeword of each length from 1 to `m`.
abbrev FirstUpTo : ℕ → List ℕ → List ℕ → Type 0
FirstUpTo m lens next = (j : ℕ) → 0 < j → j ≤ m → get_or next j 0 ≡ 2 * weight (j - 1) lens

first_codewords-next :
    (lens counts next : List ℕ) (m : ℕ)
    → ((j : ℕ) → 0 < j → get_or counts j 0 ≡ count_of j lens)
    → 0 < m
    → m < 15
    → weight m lens ≤ 2 ^ m
    → FirstUpTo m lens next
    → shl32 (add32 (get_or next m 0) (get_or counts m 0)) 1 ≡ 2 * weight m lens
first_codewords-next lens counts next m counted pos small fits first =
    let e = first m pos (omega arith) in
    let c = counted m pos in
    let same : suc (m - 1) ≡ m = omega (arith, pos) in
    let w = weight-suc (m - 1) lens in
    let room : 2 ^ m ≤ 2 ^ 15 = two_pow_mono m 15 (omega (arith, small)) in
    omega (
      arith,
      e,
      c,
      w,
      ap (λ (t : ℕ). weight t lens) same,
      ap (λ (t : ℕ). count_of t lens) same,
      room,
      fits,
    )

first_codewords-FirstUpTo :
    (lens counts next : List ℕ) (k m : ℕ)
    → ((j : ℕ) → 0 < j → get_or counts j 0 ≡ count_of j lens)
    → ((j : ℕ) → j ≤ m + k → weight j lens ≤ 2 ^ j)
    → 0 < m
    → m + k < 16
    → length next ≡ 16
    → FirstUpTo m lens next
    → FirstUpTo (m + k) lens (first_codewords counts k (m + 1) next)
unfolding first_codewords
first_codewords-FirstUpTo lens counts next zero m counted fits pos small size first j lo hi =
    first j lo (omega (arith, hi))
first_codewords-FirstUpTo lens counts next (suc k) m counted fits pos small size first j lo hi =
    let back : m + 1 - 1 ≡ m = omega arith in
    let v = shl32 (add32 (get_or next (m + 1 - 1) 0) (get_or counts (m + 1 - 1) 0)) 1 in
    let e : v ≡ 2 * weight m lens =
      ap (λ (t : ℕ). shl32 (add32 (get_or next t 0) (get_or counts t 0)) 1) back
      ∙ first_codewords-next lens counts next m counted pos (omega (arith, small))
          (fits m (omega arith)) first in
    let first' : FirstUpTo (m + 1) lens (set next (m + 1) v) = λ i above below.
      get_or-set_at next (m + 1) i v (omega (arith, size, small)) ∙ elim (Bool-cases (m + 1 == i)) [
        | inl a ↦
            let same : m + 1 ≡ i = (==_iff (m + 1) i).0 a in
            let prev : i - 1 ≡ m = omega (arith, same) in
            rw a (omega (arith, e, ap (λ (t : ℕ). weight t lens) prev))
        | inr a ↦ rw a (first i above (ground (arith, a, below)))
      ] in
    first_codewords-FirstUpTo lens counts (set next (m + 1) v) k (m + 1) counted
      (λ i h. fits i (omega (arith, h))) (omega arith) (omega (arith, small))
      (length-set next (m + 1) v ∙ size) first' j lo (omega (arith, hi))

zeros : List ℕ
zeros = replicate 16 0

get_or-zeros : (k : ℕ) → get_or zeros k 0 ≡ 0
unfolding zeros
get_or-zeros = get_or-replicate 16
  where
    get_or-replicate : (n k : ℕ) → get_or (replicate n zero) k 0 ≡ 0
    get_or-replicate zero k = refl
    get_or-replicate (suc n) zero = refl
    get_or-replicate (suc n) (suc k) = get_or-replicate n k

pub length-assign_codewords :
    (next lens : List ℕ) → length (assign_codewords next lens) ≡ length lens
unfolding assign_codewords
length-assign_codewords next [] = refl
length-assign_codewords next (l ∷ lens) = ap suc (length-assign_codewords (step next l) lens)

first_one : (lens : List ℕ) → FirstUpTo 1 lens zeros
first_one lens j lo hi =
    let z : j - 1 ≡ 0 = omega (arith, hi) in
    get_or-zeros j ∙ omega (arith, weight-zero lens, ap (λ (t : ℕ). weight t lens) z)

-- The codeword of the symbol `i`, the most significant bit first: the first of its length, and on
-- by one for every symbol before it with that length.
abbrev pub codeword_of : List ℕ → ℕ → ℕ
codeword_of lens i = let l = get_or lens i 0 in 2 * weight (l - 1) lens + count_of l (take i lens)

pub get_or-canonical_codewords :
    (lens codewords : List ℕ) (m i : ℕ)
    → All IsLen lens
    → 0 < m
    → m < 16
    → length lens < 2 ^ 15
    → weight m lens ≤ 2 ^ m
    → i < length lens
    → 0 < get_or lens i 0
    → get_or lens i 0 ≤ m
    → get_or (canonical_codewords (length lens) lens codewords m) i 0
      ≡ reverse_codeword (codeword_of lens i) (get_or lens i 0)
unfolding canonical_codewords zeros
get_or-canonical_codewords lens codewords m i h pos small few fits lo used le =
    let k = get_or lens i 0 in
    let counts = count_lens zeros lens in
    let next = first_codewords counts (m - 1) 2 zeros in
    let counted : (j : ℕ) → 0 < j → get_or counts j 0 ≡ count_of j lens = λ j above.
      get_or-count_lens zeros lens j refl h (omega (arith, get_or-zeros j, few)) above
      ∙ omega (arith, get_or-zeros j) in
    let all_fit : (j : ℕ) → j ≤ 1 + (m - 1) → weight j lens ≤ 2 ^ j =
      λ j below. weight-le m j lens (omega (arith, below, pos)) fits in
    let first =
      first_codewords-FirstUpTo lens counts zeros (m - 1) 1 counted all_fit (omega arith)
        (omega (arith, small, pos)) refl (first_one lens) k used (omega (arith, le, pos)) in
    let room : 2 ^ (k - 1) ≤ 2 ^ 15 = two_pow_mono (k - 1) 15 (omega (arith, le, small)) in
    let below = weight-le m (k - 1) lens (omega (arith, le)) fits in
    ap
      (λ t.
        get_or
          (assign_codewords (first_codewords (count_lens zeros t) (m - 1) 2 zeros) t
            ++ drop (length lens) codewords)
          i 0)
      (take_all (length lens) lens (omega arith))
    ∙ get_or-append_front (assign_codewords next lens) (drop (length lens) codewords) i 0
        (omega (arith, lo, length-assign_codewords next lens))
    ∙ get_or-assign_codewords next lens i (length-first_codewords counts (m - 1) 2 zeros) h
        (omega (arith, first, few, room, below)) lo used
    ∙ ap (λ (t : ℕ). reverse_codeword (t + count_of k (take i lens)) k) first
