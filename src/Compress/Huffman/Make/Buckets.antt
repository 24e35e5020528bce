-- ===== src/Compress/Huffman/Make/Buckets.antt =====
-- The counters of `sort_symbols` of src/compress/huffman.rs: where the entries of a bucket start.
use zenflate.Prelude.{
  ℕ, zero, suc, ◌+◌, ◌-◌, ◌≤◌, ◌<◌, ◌^◌, List, [], ◌∷◌, ◌++◌, length, get_or, set, take, drop,
  replicate, ltb, ◌==◌, ◌&&◌, if◌then◌else◌, arith, ◌≡◌, refl, sym, ap, ◌∙◌, length-set,
  length-append, length-take, length-drop, get_or-drop,
}
use zenflate.Prelude.Words.{add32}
use zenflate.Prelude.Range.{get_or-take, get_or-append_front, get_or-append_back}
use zenflate.Compress.Huffman.Weight.{count_of}
use zenflate.Compress.Huffman.Make.{bucket, count_freqs, cumulate}

abbrev pub buckets : ℕ → List ℕ → List ℕ
buckets num_syms [] = []
buckets num_syms (freq ∷ freqs) = bucket num_syms freq ∷ buckets num_syms freqs

pub length-buckets : (n : ℕ) (freqs : List ℕ) → length (buckets n freqs) ≡ length freqs
length-buckets n [] = refl
length-buckets n (f ∷ freqs) = ap suc (length-buckets n freqs)

-- How many symbols have a bucket below `b` that is not zero.
abbrev pub below : ℕ → List ℕ → ℕ
below b [] = 0
below b (x ∷ xs) = (if ltb 0 x && ltb x b then 1 else 0) + below b xs

pub below-suc : (b : ℕ) (xs : List ℕ) → 0 < b → below (suc b) xs ≡ below b xs + count_of b xs
below-suc b [] pos = refl
below-suc b (x ∷ xs) pos = ground (arith, pos, below-suc b xs pos)

pub below_mono : (b c : ℕ) (xs : List ℕ) → b ≤ c → below b xs ≤ below c xs
below_mono b c [] le = omega arith
below_mono b c (x ∷ xs) le = ground (arith, le, below_mono b c xs le)

pub below-one : (xs : List ℕ) → below 1 xs ≡ 0
below-one [] = refl
below-one (x ∷ xs) = ground (arith, below-one xs)

pub below-length : (b : ℕ) (xs : List ℕ) → below b xs ≤ length xs
below-length b [] = omega arith
below-length b (x ∷ xs) = ground (arith, below-length b xs)

length-count_freqs :
    (n : ℕ) (counters freqs : List ℕ) → length (count_freqs n counters freqs) ≡ length counters
unfolding count_freqs
length-count_freqs n counters [] = refl
length-count_freqs n counters (f ∷ freqs) =
    let b = bucket n f in
    length-count_freqs n (set counters b (add32 (get_or counters b 0) 1)) freqs
    ∙ length-set counters b (add32 (get_or counters b 0) 1)

get_or-bump :
    (counters : List ℕ) (i b v : ℕ)
    → i < length counters
    → v ≡ get_or counters i 0 + 1
    → get_or (set counters i v) b 0 ≡ get_or counters b 0 + (if i == b then 1 else 0)
get_or-bump [] i b v h e = absurd (omega (arith, h))
get_or-bump (x ∷ xs) zero zero v h e = omega (arith, e)
get_or-bump (x ∷ xs) zero (suc b) v h e = ground arith
get_or-bump (x ∷ xs) (suc i) zero v h e = ground arith
get_or-bump (x ∷ xs) (suc i) (suc b) v h e =
    ground (arith, get_or-bump xs i b v (omega (arith, h)) e)

bucket-lt : (n f : ℕ) → 0 < n → bucket n f < n
unfolding bucket
bucket-lt n f pos = omega (arith, pos)

get_or-count_freqs :
    (n b k : ℕ) (counters freqs : List ℕ)
    → 0 < n
    → n ≤ length counters
    → ((i : ℕ) → get_or counters i 0 ≤ k)
    → k + length freqs < 2 ^ 32
    → get_or (count_freqs n counters freqs) b 0 ≡ get_or counters b 0 + count_of b (buckets n freqs)
unfolding count_freqs
get_or-count_freqs n b k counters [] pos room low small = omega arith
get_or-count_freqs n b k counters (f ∷ freqs) pos room low small =
    let i = bucket n f in
    let v = add32 (get_or counters i 0) 1 in
    let inside = bucket-lt n f pos in
    let e : v ≡ get_or counters i 0 + 1 = omega (arith, low i, small) in
    let bumped = λ (j : ℕ). get_or-bump counters i j v (omega (arith, inside, room)) e in
    let next =
      get_or-count_freqs n b (k + 1) (set counters i v) freqs pos
        (omega (arith, room, length-set counters i v)) (λ j. ground (arith, bumped j, low j))
        (omega (arith, small)) in
    omega (arith, next, bumped b)

-- A counter becomes the number of the entries before its bucket's.
pub cumulate-below :
    (o : ℕ) (xs bs : List ℕ) (acc : ℕ)
    → 0 < o
    → acc ≡ below o bs
    → ((i : ℕ) → i < length xs → get_or xs i 0 ≡ count_of (o + i) bs)
    → (length (cumulate xs acc).0 ≡ length xs)
      × ((i : ℕ) → i < length xs → get_or (cumulate xs acc).0 i 0 ≡ below (o + i) bs)
      × ((cumulate xs acc).1 ≡ below (o + length xs) bs)
unfolding cumulate
cumulate-below o [] bs acc pos e h =
    let z : o + 0 ≡ o = omega arith in
    (refl, (λ i g. absurd (omega (arith, g))), e ∙ ap (λ (t : ℕ). below t bs) (sym z))
cumulate-below o (x ∷ xs) bs acc pos e h =
    let z : o + 0 ≡ o = omega arith in
    let first : x ≡ count_of o bs = h 0 (omega arith) ∙ ap (λ (t : ℕ). count_of t bs) z in
    let shift : (i : ℕ) → o + suc i ≡ suc o + i = λ i. omega arith in
    let (size, starts, used) =
      cumulate-below (suc o) xs bs (acc + x) (omega arith)
        (omega (arith, e, first, below-suc o bs pos))
        (λ i g. h (suc i) (omega (arith, g)) ∙ ap (λ (t : ℕ). count_of t bs) (shift i)) in
    (
      ap suc size,
      (λ i g. start_at i g e starts),
      used ∙ ap (λ (t : ℕ). below t bs) (sym (shift (length xs))),
    )
  where
    start_at :
        (i : ℕ)
        → i < length (x ∷ xs)
        → acc ≡ below o bs
        → ((j : ℕ) → j < length xs → get_or (cumulate xs (acc + x)).0 j 0 ≡ below (suc o + j) bs)
        → get_or (acc ∷ (cumulate xs (acc + x)).0) i 0 ≡ below (o + i) bs
    start_at zero g e starts =
        let z : o + 0 ≡ o = omega arith in e ∙ ap (λ (t : ℕ). below t bs) (sym z)
    start_at (suc i) g e starts =
        let z : suc o + i ≡ o + suc i = omega arith in
        starts i (omega (arith, g)) ∙ ap (λ (t : ℕ). below t bs) z

-- The counters before the entries are placed.
abbrev pub counters_of : ℕ → List ℕ → List ℕ
counters_of n counted =
    take 1 counted ++ ((cumulate (take (n - 1) (drop 1 counted)) 0).0 ++ drop n counted)

abbrev pub counted_of : ℕ → List ℕ → List ℕ
counted_of n freqs = count_freqs n (replicate 288 0) freqs

module _ (n : ℕ) (freqs : List ℕ) (least : 2 ≤ n) (most : n ≤ 288) (size : length freqs ≡ n) where
  counts-eq : (b : ℕ) → get_or (counted_of n freqs) b 0 ≡ count_of b (buckets n freqs)
  counts-eq b =
      get_or-count_freqs n b 0 (replicate 288 0) freqs (omega (arith, least)) most
        (λ i. omega (arith, zero_at 288 i)) (omega (arith, size, most))
      ∙ omega (arith, zero_at 288 b)
    where
      zero_at : (k i : ℕ) → get_or {A = ℕ} (replicate k 0) i 0 ≡ 0
      zero_at zero i = refl
      zero_at (suc k) zero = refl
      zero_at (suc k) (suc i) = zero_at k i

  size-counted : length (counted_of n freqs) ≡ 288
  size-counted = length-count_freqs n (replicate 288 0) freqs

  abbrev tail : List ℕ
  tail = take (n - 1) (drop 1 (counted_of n freqs))

  size-tail : length tail ≡ n - 1
  size-tail = omega (
    arith,
    length-take (n - 1) (drop 1 (counted_of n freqs)),
    length-drop 1 (counted_of n freqs),
    size-counted,
    least,
    most,
  )

  tail-eq : (i : ℕ) → i < length tail → get_or tail i 0 ≡ count_of (1 + i) (buckets n freqs)
  tail-eq i h =
      get_or-take (n - 1) i (drop 1 (counted_of n freqs)) 0 (omega (arith, h, size-tail))
      ∙ get_or-drop 1 i (counted_of n freqs) 0
      ∙ counts-eq (1 + i)

  cumulated :
      (length (cumulate tail 0).0 ≡ length tail)
      × ((i : ℕ)
          → i < length tail
          → get_or (cumulate tail 0).0 i 0 ≡ below (1 + i) (buckets n freqs))
      × ((cumulate tail 0).1 ≡ below (1 + length tail) (buckets n freqs))
  cumulated =
      cumulate-below 1 tail (buckets n freqs) 0 (omega arith) (sym (below-one (buckets n freqs)))
        tail-eq

  pub used-eq : (cumulate tail 0).1 ≡ below n (buckets n freqs)
  used-eq =
      let e : 1 + length tail ≡ n = omega (arith, size-tail, least) in
      cumulated.2 ∙ ap (λ (t : ℕ). below t (buckets n freqs)) e

  pub size-counters : length (counters_of n (counted_of n freqs)) ≡ 288
  size-counters =
      length-append (take 1 (counted_of n freqs))
        ((cumulate tail 0).0 ++ drop n (counted_of n freqs))
      ∙ omega (
        arith,
        length-append (cumulate tail 0).0 (drop n (counted_of n freqs)),
        length-take 1 (counted_of n freqs),
        length-drop n (counted_of n freqs),
        cumulated.0,
        size-tail,
        size-counted,
        least,
        most,
      )

  pub counters-below :
      (b : ℕ)
      → 0 < b
      → b < n
      → get_or (counters_of n (counted_of n freqs)) b 0 ≡ below b (buckets n freqs)
  counters-below b pos h =
      let one : length (take 1 (counted_of n freqs)) ≡ 1 =
        omega (arith, length-take 1 (counted_of n freqs), size-counted) in
      let rest = (cumulate tail 0).0 ++ drop n (counted_of n freqs) in
      let e : 1 + (b - 1) ≡ b = omega (arith, pos) in
      let inside : b - 1 < length tail = omega (arith, size-tail, h, pos) in
      ap (λ (t : ℕ). get_or (counters_of n (counted_of n freqs)) t 0)
        (sym e ∙ ap (λ (t : ℕ). t + (b - 1)) (sym one))
      ∙ get_or-append_back (take 1 (counted_of n freqs)) rest (b - 1) 0
      ∙ get_or-append_front (cumulate tail 0).0 (drop n (counted_of n freqs)) (b - 1) 0
          (omega (arith, inside, cumulated.0))
      ∙ cumulated.1 (b - 1) inside
      ∙ ap (λ (t : ℕ). below t (buckets n freqs)) e
