-- ===== src/Compress/Huffman/Make/Lengths.antt =====
-- The codeword lengths of `gen_codewords` of src/compress/huffman.rs: as many of each length as the
-- counts say, whatever the lengths were before.
use zenflate.Prelude.{
  ℕ, zero, suc, ◌+◌, ◌*◌, ◌^◌, ◌≤◌, ◌<◌, List, [], ◌∷◌, ◌++◌, length, get_or, set, replicate, All,
  leb, ◌==◌, if◌then◌else◌, arith, ◌≡◌, ◌≢◌, refl, sym, ap, ◌∙◌, inl, inr, Bool-cases, ==_iff,
  length-replicate, length-append, All-append,
}
use mathlib.Core.Path.{subst}
use zenflate.Prelude.Arith.{two_pow_suc}
use zenflate.Prelude.Bits.{bit_and_mask}
use zenflate.Compress.Huffman.Weight.{count_of, weight, weight-suc, weight-zero}
use zenflate.Compress.Huffman.Tree.Words.{symbol}
use zenflate.Compress.Huffman.Tree.Space.{space}
use zenflate.Compress.Huffman.Make.{assign_run, assign_lengths}
use zenflate.Compress.Huffman.Make.Put.{
  Distinct, put, put-agree, put-All, put-used, count_of-put, count_of-append, longest_first,
}

-- The entries from `i` on, as symbols.
abbrev pub symbols_from : List ℕ → ℕ → ℕ → List ℕ
symbols_from a i zero = []
symbols_from a i (suc n) = symbol a i ∷ symbols_from a (i + 1) n

length-symbols_from : (a : List ℕ) (i n : ℕ) → length (symbols_from a i n) ≡ n
length-symbols_from a i zero = refl
length-symbols_from a i (suc n) = ap suc (length-symbols_from a (i + 1) n)

assign_run-put :
    (count len : ℕ) (a : List ℕ) (i n : ℕ) (lens vs : List ℕ)
    → put lens (symbols_from a i (count + n)) (replicate count len ++ vs)
      ≡ put (assign_run count len a i lens) (symbols_from a (i + count) n) vs
unfolding assign_run
assign_run-put zero len a i n lens vs =
    let e : 0 + n ≡ n = omega arith in let f : i + 0 ≡ i = omega arith in rw (e, f) refl
assign_run-put (suc count) len a i n lens vs =
    let e : suc count + n ≡ suc (count + n) = omega arith in
    let f : i + suc count ≡ i + 1 + count = omega arith in
    rw (e, f, bit_and_mask 10 (get_or a i 0))
      (assign_run-put count len a (i + 1) n (set lens (symbol a i) len) vs)

-- The number of the codewords of the lengths from one up to `k`.
abbrev pub codewords : ℕ → List ℕ → ℕ
codewords zero cs = 0
codewords (suc k) cs = get_or cs (suc k) 0 + codewords k cs

length-longest_first : (k : ℕ) (cs : List ℕ) → length (longest_first k cs) ≡ codewords k cs
length-longest_first zero cs = refl
length-longest_first (suc k) cs = omega (
  arith,
  length-append (replicate (get_or cs (suc k) 0) (suc k)) (longest_first k cs),
  length-replicate (get_or cs (suc k) 0) (suc k),
  length-longest_first k cs,
)

assign_lengths-put :
    (k : ℕ) (cs a : List ℕ) (i : ℕ) (lens : List ℕ)
    → assign_lengths k cs a i lens
      ≡ put lens (symbols_from a i (codewords k cs)) (longest_first k cs)
unfolding assign_lengths
assign_lengths-put zero cs a i lens = refl
assign_lengths-put (suc k) cs a i lens =
    let count = get_or cs (suc k) 0 in
    assign_lengths-put k cs a (i + count) (assign_run count (suc k) a i lens)
    ∙ sym (assign_run-put count (suc k) a i (codewords k cs) lens (longest_first k cs))

count_of-replicate : (l n v : ℕ) → count_of l (replicate n v) ≡ (if v == l then n else 0)
count_of-replicate l zero v = ground arith
count_of-replicate l (suc n) v = ground (arith, count_of-replicate l n v)

count_of-longest_first :
    (l k : ℕ) (cs : List ℕ)
    → 0 < l
    → count_of l (longest_first k cs) ≡ (if leb l k then get_or cs l 0 else 0)
count_of-longest_first l zero cs pos = ground (arith, pos)
count_of-longest_first l (suc k) cs pos =
    let parts =
      count_of-append l (replicate (get_or cs (suc k) 0) (suc k)) (longest_first k cs)
      ∙ ap (λ (t : ℕ). t + count_of l (longest_first k cs))
          (count_of-replicate l (get_or cs (suc k) 0) (suc k)) in
    elim (Bool-cases (suc k == l)) [
      | inl t ↦
          let same : l ≡ suc k = sym ((==_iff (suc k) l).0 t) in
          let same_count : get_or cs l 0 ≡ get_or cs (suc k) 0 =
            ap (λ (j : ℕ). get_or cs j 0) same in
          ground (arith, parts, count_of-longest_first l k cs pos, same, same_count)
      | inr t ↦ ground (arith, parts, count_of-longest_first l k cs pos, t)
    ]

count_of-zeros : (l n : ℕ) → 0 < l → count_of l (replicate n 0) ≡ 0
count_of-zeros l zero pos = refl
count_of-zeros l (suc n) pos = ground (arith, pos, count_of-zeros l n pos)

get_or-zeros : (n j : ℕ) → get_or {A = ℕ} (replicate n 0) j 0 ≡ 0
get_or-zeros zero j = refl
get_or-zeros (suc n) zero = refl
get_or-zeros (suc n) (suc j) = get_or-zeros n j

zeros-All : (n : ℕ) (ss : List ℕ) → All (λ (s : ℕ). get_or {A = ℕ} (replicate n 0) s 0 ≡ 0) ss
zeros-All n [] = tt
zeros-All n (s ∷ ss) = (get_or-zeros n s, zeros-All n ss)

space-suc : (k : ℕ) (cs : List ℕ) → space (suc k) cs ≡ 2 * space k cs + get_or cs (suc k) 0
space-suc k [] = omega arith
space-suc zero (c ∷ []) = omega arith
space-suc zero (c ∷ x ∷ cs) = omega arith
space-suc (suc k) (c ∷ cs) =
    let twice : c * 2 ^ suc (suc k) ≡ 2 * (c * 2 ^ suc k) =
      ap (λ (t : ℕ). c * t) (two_pow_suc (suc k)) ∙ grind arith in
    omega (arith, twice, space-suc k cs)

weight-space :
    (k : ℕ) (cs lens : List ℕ)
    → get_or cs 0 0 ≡ 0
    → ((l : ℕ) → 0 < l → l ≤ k → count_of l lens ≡ get_or cs l 0)
    → weight k lens ≡ space k cs
weight-space zero cs lens none h = weight-zero lens ∙ nothing cs none
  where
    nothing : (xs : List ℕ) → get_or xs 0 0 ≡ 0 → 0 ≡ space 0 xs
    nothing [] e = refl
    nothing (x ∷ xs) e = sym e
weight-space (suc k) cs lens none h = omega (
  arith,
  weight-suc k lens,
  space-suc k cs,
  weight-space k cs lens none (λ l pos le. h l pos (omega (arith, le))),
  h (suc k) (omega arith) (omega arith),
)

-- The entries from 0 on hold the used symbols, each once; the other symbols have the length zero.
pub record Used (a lens : List ℕ) (n : ℕ) : Type 0 where
  pub apart : Distinct (symbols_from a 0 n)
  pub inside : All (λ (s : ℕ). s < length lens) (symbols_from a 0 n)
  pub others : (j : ℕ) → All (λ (s : ℕ). s ≢ j) (symbols_from a 0 n) → get_or lens j 0 ≡ 0

-- So they are what the lengths make of zeros.
assign_lengths-zeros :
    (a lens cs : List ℕ) (k : ℕ)
    → Used a lens (codewords k cs)
    → assign_lengths k cs a 0 lens
      ≡ put (replicate (length lens) 0) (symbols_from a 0 (codewords k cs)) (longest_first k cs)
assign_lengths-zeros a lens cs k u =
    let n = codewords k cs in
    assign_lengths-put k cs a 0 lens
    ∙ put-agree (symbols_from a 0 n) (longest_first k cs) lens (replicate (length lens) 0)
        (length-longest_first k cs ∙ sym (length-symbols_from a 0 n))
        (sym (length-replicate {A = ℕ} (length lens) 0)) u.inside
        (λ j away. u.others j away ∙ sym (get_or-zeros (length lens) j))

-- Each length is `k` at most.
pub assign_lengths-All :
    (a lens cs : List ℕ) (k : ℕ)
    → Used a lens (codewords k cs)
    → All (λ (l : ℕ). l ≤ k) (assign_lengths k cs a 0 lens)
assign_lengths-All a lens cs k u =
    subst (All (λ (l : ℕ). l ≤ k)) (sym (assign_lengths-zeros a lens cs k u)) (
      put-All k (symbols_from a 0 (codewords k cs)) (longest_first k cs) (replicate (length lens) 0)
        (zeros-All (length lens)) (longest_first-All k k (omega arith)))
  where
    zeros-All : (n : ℕ) → All (λ (l : ℕ). l ≤ k) (replicate n 0)
    zeros-All zero = tt
    zeros-All (suc n) = (omega arith, zeros-All n)

    longest_first-All : (j m : ℕ) → j ≤ m → All (λ (l : ℕ). l ≤ m) (longest_first j cs)
    longest_first-All zero m h = tt
    longest_first-All (suc j) m h =
        All-append (λ (l : ℕ). l ≤ m) (replicate (get_or cs (suc j) 0) (suc j)) (longest_first j cs)
          (run (get_or cs (suc j) 0)) (longest_first-All j m (omega (arith, h)))
      where
        run : (n : ℕ) → All (λ (l : ℕ). l ≤ m) (replicate n (suc j))
        run zero = tt
        run (suc n) = (h, run n)

-- For entries that hold each used symbol once, and lengths that are zero at the other symbols, each
-- length goes to as many symbols as `len_counts` says, whatever lengths the used symbols had.
pub assign_lengths-count_of :
    (a lens len_counts : List ℕ) (k : ℕ)
    → Used a lens (codewords k len_counts)
    → (l : ℕ) → 0 < l
    → l ≤ k
    → count_of l (assign_lengths k len_counts a 0 lens) ≡ get_or len_counts l 0
assign_lengths-count_of a lens cs k u l pos le =
    let n = codewords k cs in
    let ss = symbols_from a 0 n in
    let vs = longest_first k cs in
    let zeros : List ℕ = replicate (length lens) 0 in
    let same : length lens ≡ length zeros = sym (length-replicate {A = ℕ} (length lens) 0) in
    let sizes : length vs ≡ length ss =
      length-longest_first k cs ∙ sym (length-symbols_from a 0 n) in
    let counted : count_of l (put zeros ss vs) ≡ count_of l zeros + count_of l vs =
      count_of-put l ss vs zeros pos sizes u.apart (rw (sym same) u.inside)
        (zeros-All (length lens) ss) in
    let all : count_of l vs ≡ (if leb l k then get_or cs l 0 else 0) =
      count_of-longest_first l k cs pos in
    let known : count_of l vs ≡ get_or cs l 0 = ground (arith, all, le) in
    omega (
      arith,
      ap (count_of l) (assign_lengths-zeros a lens cs k u),
      counted,
      known,
      count_of-zeros l (length lens) pos,
    )

-- So the lengths take the code space that the counts take.
pub assign_lengths-weight :
    (a lens len_counts : List ℕ) (k : ℕ)
    → Used a lens (codewords k len_counts)
    → get_or len_counts 0 0 ≡ 0
    → weight k (assign_lengths k len_counts a 0 lens) ≡ space k len_counts
assign_lengths-weight a lens cs k u none =
    weight-space k cs (assign_lengths k cs a 0 lens) none (assign_lengths-count_of a lens cs k u)

-- A used symbol has a length.
pub assign_lengths-Used :
    (a lens cs : List ℕ) (k s : ℕ)
    → Used a lens (codewords k cs)
    → 0 < count_of s (symbols_from a 0 (codewords k cs))
    → 0 < get_or (assign_lengths k cs a 0 lens) s 0
assign_lengths-Used a lens cs k s u pos =
    let n = codewords k cs in
    subst (λ (t : List ℕ). 0 < get_or t s 0) (sym (assign_lengths-zeros a lens cs k u))
      (put-used (symbols_from a 0 n) (longest_first k cs) (replicate (length lens) 0) s
        (length-longest_first k cs ∙ sym (length-symbols_from a 0 n)) u.apart
        (rw (length-replicate {A = ℕ} (length lens) 0) u.inside) (longest_first-used k) pos)
  where
    longest_first-used : (j : ℕ) → All (λ (v : ℕ). 0 < v) (longest_first j cs)
    longest_first-used zero = tt
    longest_first-used (suc j) =
        All-append (λ (v : ℕ). 0 < v) (replicate (get_or cs (suc j) 0) (suc j)) (longest_first j cs)
          (run (get_or cs (suc j) 0)) (longest_first-used j)
      where
        run : (m : ℕ) → All (λ (v : ℕ). 0 < v) (replicate m (suc j))
        run zero = tt
        run (suc m) = (omega arith, run m)
