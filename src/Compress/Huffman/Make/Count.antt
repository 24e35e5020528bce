-- ===== src/Compress/Huffman/Make/Count.antt =====
-- The symbols of the entries of src/compress/huffman.rs, counted: sorting them changes no count, and
-- the counts say which symbols there are.
use zenflate.Prelude.{
  ℕ, zero, suc, ◌+◌, ◌%◌, ◌≤◌, ◌<◌, List, [], ◌∷◌, ◌++◌, length, take, drop, All, leb, ltb, ◌==◌,
  arith, ◌≡◌, ◌≢◌, refl, sym, ap, ◌∙◌, inl, inr, Bool-cases, ltb→lt, ltb→ge, ==_iff, append_assoc,
  take-append, take-append-drop, length-append, length-take, length-drop,
}
use zenflate.Compress.Huffman.Weight.{count_of}
use zenflate.Compress.Huffman.Tree.Words.{symbol}
use zenflate.Compress.Huffman.Make.{insert, sort_unstable, sort_range}
use zenflate.Compress.Huffman.Make.Put.{Distinct, count_of-append}
use zenflate.Compress.Huffman.Make.Lengths.{symbols_from}

abbrev pub symbols : List ℕ → List ℕ
symbols [] = []
symbols (x ∷ xs) = x % 1024 ∷ symbols xs

shift : (x : ℕ) (xs : List ℕ) (i n : ℕ) → symbols_from (x ∷ xs) (suc i) n ≡ symbols_from xs i n
shift x xs i zero = refl
shift x xs i (suc n) =
    let e : suc i + 1 ≡ suc (i + 1) = omega arith in
    ap (λ t. symbol xs i ∷ t) (ap (λ (t : ℕ). symbols_from (x ∷ xs) t n) e ∙ shift x xs (i + 1) n)

pub symbols_from-take :
    (n : ℕ) (xs : List ℕ) → n ≤ length xs → symbols_from xs 0 n ≡ symbols (take n xs)
symbols_from-take zero xs h = refl
symbols_from-take (suc n) [] h = absurd (omega (arith, h))
symbols_from-take (suc n) (x ∷ xs) h =
    let e : 0 + 1 ≡ suc 0 = omega arith in
    ap (λ t. x % 1024 ∷ t)
      (ap (λ (t : ℕ). symbols_from (x ∷ xs) t n) e
        ∙ shift x xs 0 n
        ∙ symbols_from-take n xs (omega (arith, h)))

-- The symbols of the entries from `i` to `i + n`, one by one.
module _ {ℓ} (P : ℕ → Type ℓ) (a : List ℕ) where
  pub All-symbols_from :
      (i n : ℕ) → ((k : ℕ) → i ≤ k → k < i + n → P (symbol a k)) → All P (symbols_from a i n)
  All-symbols_from i zero h = tt
  All-symbols_from i (suc n) h = (
    h i (omega arith) (omega arith),
    All-symbols_from (i + 1) n (λ k g l. h k (omega (arith, g)) (omega (arith, l))),
  )

  pub symbols_from-All :
      (i n k : ℕ) → All P (symbols_from a i n) → i ≤ k → k < i + n → P (symbol a k)
  symbols_from-All i zero k h g l = absurd (omega (arith, g, l))
  symbols_from-All i (suc n) k (p, h) g l = elim (Bool-cases (ltb i k)) [
    | inl t ↦ symbols_from-All (i + 1) n k h (omega (arith, ltb→lt i k t)) (omega (arith, l))
    | inr t ↦ let e : k ≡ i = omega (arith, g, ltb→ge i k t) in rw e p
  ]

pub Distinct-symbols_from :
    (a : List ℕ) (i n : ℕ)
    → ((k j : ℕ) → i ≤ k → k < j → j < i + n → symbol a j ≢ symbol a k)
    → Distinct (symbols_from a i n)
Distinct-symbols_from a i zero h = tt
Distinct-symbols_from a i (suc n) h = (
  All-symbols_from (λ (t : ℕ). t ≢ symbol a i) a (i + 1) n
      (λ k g l. h i k (omega arith) (omega (arith, g)) (omega (arith, l))),
  Distinct-symbols_from a (i + 1) n (λ k j g m l. h k j (omega (arith, g)) m (omega (arith, l))),
)

pub count_of-absent : (s : ℕ) (ss : List ℕ) → All (λ (t : ℕ). t ≢ s) ss → count_of s ss ≡ 0
count_of-absent s [] h = refl
count_of-absent s (t ∷ ss) (ne, h) = elim (Bool-cases (t == s)) [
  | inl u ↦ absurd (ne ((==_iff t s).0 u))
  | inr u ↦ rw u (omega (arith, count_of-absent s ss h))
]

pub count_of-present {ℓ} :
    (P : ℕ → Type ℓ) (ss : List ℕ) → All P ss → (s : ℕ) → 0 < count_of s ss → P s
count_of-present P [] h s pos = absurd (omega (arith, pos))
count_of-present P (t ∷ ss) (p, h) s pos = elim (Bool-cases (t == s)) [
  | inl u ↦ let e : s ≡ t = sym ((==_iff t s).0 u) in rw e p
  | inr u ↦ count_of-present P ss h s (ground (arith, pos, u))
]

pub All-of_counts {ℓ} :
    (P : ℕ → Type ℓ) (ss : List ℕ) → ((s : ℕ) → 0 < count_of s ss → P s) → All P ss
All-of_counts P [] h = tt
All-of_counts P (t ∷ ss) h =
    (h t (ground arith), All-of_counts P ss (λ s pos. h s (omega (arith, pos))))

Distinct-count_of : (ss : List ℕ) → Distinct ss → (s : ℕ) → count_of s ss ≤ 1
Distinct-count_of [] d s = omega arith
Distinct-count_of (t ∷ ss) (fresh, d) s = elim (Bool-cases (t == s)) [
  | inl u ↦
      let e : t ≡ s = (==_iff t s).0 u in
      let none : count_of s ss ≡ 0 = rw (sym e) (count_of-absent t ss fresh) in ground (arith, none)
  | inr u ↦ ground (arith, u, Distinct-count_of ss d s)
]

Distinct-of_counts : (ss : List ℕ) → ((s : ℕ) → count_of s ss ≤ 1) → Distinct ss
Distinct-of_counts [] h = tt
Distinct-of_counts (t ∷ ss) h = (
  All-of_counts (λ (s : ℕ). s ≢ t) ss (λ s pos e. fresh s pos e),
  Distinct-of_counts ss (λ s. omega (arith, h s)),
)
  where
    fresh : (s : ℕ) → 0 < count_of s ss → s ≢ t
    fresh s pos e =
        let same : count_of s ss ≡ count_of t ss = ap (λ (i : ℕ). count_of i ss) e in
        ground (arith, pos, same, h t)

pub same_counts-Distinct :
    (ss ts : List ℕ) → ((s : ℕ) → count_of s ts ≡ count_of s ss) → Distinct ss → Distinct ts
same_counts-Distinct ss ts e d =
    Distinct-of_counts ts (λ s. omega (arith, e s, Distinct-count_of ss d s))

pub same_counts-All {ℓ} :
    (P : ℕ → Type ℓ) (ss ts : List ℕ)
    → ((s : ℕ) → count_of s ts ≡ count_of s ss)
    → All P ss
    → All P ts
same_counts-All P ss ts e h =
    All-of_counts P ts (λ s pos. count_of-present P ss h s (omega (arith, pos, e s)))

count_of-insert :
    (s x : ℕ) (ys : List ℕ) → count_of s (symbols (insert x ys)) ≡ count_of s (symbols (x ∷ ys))
unfolding insert
count_of-insert s x [] = refl
count_of-insert s x (y ∷ ys) = elim (Bool-cases (leb x y)) [
  | inl t ↦ rw t refl
  | inr t ↦ rw t (omega (arith, count_of-insert s x ys))
]

count_of-sort :
    (s : ℕ) (xs : List ℕ) → count_of s (symbols (sort_unstable xs)) ≡ count_of s (symbols xs)
unfolding sort_unstable
count_of-sort s [] = refl
count_of-sort s (x ∷ xs) =
    count_of-insert s x (sort_unstable xs) ∙ omega (arith, count_of-sort s xs)

length-insert : (x : ℕ) (ys : List ℕ) → length (insert x ys) ≡ suc (length ys)
unfolding insert
length-insert x [] = refl
length-insert x (y ∷ ys) = elim (Bool-cases (leb x y)) [
  | inl t ↦ rw t refl
  | inr t ↦ rw t (ap suc (length-insert x ys))
]

length-sort : (xs : List ℕ) → length (sort_unstable xs) ≡ length xs
unfolding sort_unstable
length-sort [] = refl
length-sort (x ∷ xs) = length-insert x (sort_unstable xs) ∙ ap suc (length-sort xs)

symbols-append : (xs ys : List ℕ) → symbols (xs ++ ys) ≡ symbols xs ++ symbols ys
symbols-append [] ys = refl
symbols-append (x ∷ xs) ys = ap (λ t. x % 1024 ∷ t) (symbols-append xs ys)

take-take : (i n : ℕ) (xs : List ℕ) → i ≤ n → take i (take n xs) ≡ take i xs
take-take zero n xs h = refl
take-take (suc i) zero xs h = absurd (omega (arith, h))
take-take (suc i) (suc n) [] h = refl
take-take (suc i) (suc n) (x ∷ xs) h = ap (λ t. x ∷ t) (take-take i n xs (omega (arith, h)))

count_of-parts :
    (s : ℕ) (xs ys : List ℕ)
    → count_of s (symbols (xs ++ ys)) ≡ count_of s (symbols xs) + count_of s (symbols ys)
count_of-parts s xs ys =
    ap (count_of s) (symbols-append xs ys) ∙ count_of-append s (symbols xs) (symbols ys)

range-count :
    (s start n : ℕ) (xs : List ℕ)
    → n ≤ length xs
    → count_of s (symbols (take n (sort_range start n xs))) ≡ count_of s (symbols (take n xs))
unfolding sort_range
range-count s start n xs h = elim (Bool-cases (ltb start n)) [
  | inr t ↦ rw t refl
  | inl t ↦
      let l = ltb→lt start n t in
      let front = take start xs in
      let middle = drop start (take n xs) in
      let sorted = sort_unstable middle in
      let size : length (front ++ sorted) ≡ n =
        length-append front sorted
        ∙ omega (
          arith,
          length-sort middle,
          length-take start xs,
          length-drop start (take n xs),
          length-take n xs,
          h,
          l,
        ) in
      let cut : take n (front ++ (sorted ++ drop n xs)) ≡ front ++ sorted =
        ap (take n) (sym (append_assoc front sorted (drop n xs)))
        ∙ ap (λ (i : ℕ). take i ((front ++ sorted) ++ drop n xs)) (sym size)
        ∙ take-append (front ++ sorted) (drop n xs) in
      let whole : front ++ middle ≡ take n xs =
        ap (λ i. i ++ middle) (sym (take-take start n xs (omega (arith, l))))
        ∙ take-append-drop start (take n xs) in
      rw t (
        ap (λ i. count_of s (symbols i)) cut
        ∙ count_of-parts s front sorted
        ∙ ap (λ (i : ℕ). count_of s (symbols front) + i) (count_of-sort s middle)
        ∙ sym (count_of-parts s front middle)
        ∙ ap (λ i. count_of s (symbols i)) whole)
]

-- The sort of a range that ends at `n` keeps the symbols of the entries before `n`.
module _ (start n : ℕ) (xs : List ℕ) (h : n ≤ length xs) where
  pub length-sort_range : length (sort_range start n xs) ≡ length xs
  unfolding sort_range
  length-sort_range = elim (Bool-cases (ltb start n)) [
    | inr t ↦ rw t refl
    | inl t ↦
        let l = ltb→lt start n t in
        let middle = drop start (take n xs) in
        rw t (
          length-append (take start xs) (sort_unstable middle ++ drop n xs)
          ∙ omega (
            arith,
            length-append (sort_unstable middle) (drop n xs),
            length-sort middle,
            length-take start xs,
            length-drop start (take n xs),
            length-take n xs,
            length-drop n xs,
            h,
            l,
          ))
  ]

  pub count_of-sort_range :
      (s : ℕ)
      → count_of s (symbols_from (sort_range start n xs) 0 n) ≡ count_of s (symbols_from xs 0 n)
  count_of-sort_range s =
      ap (count_of s)
        (symbols_from-take n (sort_range start n xs) (omega (arith, h, length-sort_range)))
      ∙ range-count s start n xs h
      ∙ ap (count_of s) (sym (symbols_from-take n xs h))
