-- ===== src/Compress/Huffman/Make/Put.antt =====
-- Symbols that get their lengths, in src/compress/huffman.rs: how many of a length there are then.
use zenflate.Prelude.{
  ℕ, zero, suc, ◌+◌, ◌≤◌, ◌<◌, List, [], ◌∷◌, ◌++◌, length, get_or, set, replicate, All, false, ltb,
  ◌==◌, if◌then◌else◌, arith, ◌≡◌, ◌≢◌, refl, sym, ap, ◌∙◌, inl, inr, Bool-cases, ltb→lt, ltb→ge,
  ==_iff, ne→==, length-set, get_or-set, get_or-set_above, get_or-set_below,
}
use zenflate.Compress.Huffman.Weight.{count_of}

abbrev pub Distinct : List ℕ → Type 0
Distinct [] = Unit
Distinct (s ∷ ss) = All (λ (t : ℕ). t ≢ s) ss × Distinct ss

-- The symbols `ss` get the lengths `vs`.
abbrev pub put : List ℕ → List ℕ → List ℕ → List ℕ
put xs [] vs = xs
put xs (s ∷ ss) [] = xs
put xs (s ∷ ss) (v ∷ vs) = put (set xs s v) ss vs

-- The lengths of the counts, the longest first.
abbrev pub longest_first : ℕ → List ℕ → List ℕ
longest_first zero cs = []
longest_first (suc len) cs = replicate (get_or cs (suc len) 0) (suc len) ++ longest_first len cs

same_lists :
    (xs ys : List ℕ) → length xs ≡ length ys → ((j : ℕ) → get_or xs j 0 ≡ get_or ys j 0) → xs ≡ ys
same_lists [] [] e h = refl
same_lists [] (y ∷ ys) e h = absurd (omega (arith, e))
same_lists (x ∷ xs) [] e h = absurd (omega (arith, e))
same_lists (x ∷ xs) (y ∷ ys) e h =
    ap (λ t. t ∷ xs) (h 0) ∙ ap (λ t. y ∷ t) (same_lists xs ys (omega (arith, e)) (λ j. h (suc j)))

-- What the symbols had before does not matter.
pub put-agree :
    (ss vs xs ys : List ℕ)
    → length vs ≡ length ss
    → length xs ≡ length ys
    → All (λ (s : ℕ). s < length xs) ss
    → ((j : ℕ) → All (λ (s : ℕ). s ≢ j) ss → get_or xs j 0 ≡ get_or ys j 0)
    → put xs ss vs ≡ put ys ss vs
put-agree [] vs xs ys n e inside h = same_lists xs ys e (λ j. h j tt)
put-agree (s ∷ ss) [] xs ys n e inside h = absurd (omega (arith, n))
put-agree (s ∷ ss) (v ∷ vs) xs ys n e (first, inside) h =
    put-agree ss vs (set xs s v) (set ys s v) (omega (arith, n))
      (omega (arith, e, length-set xs s v, length-set ys s v)) (rw (length-set xs s v) inside)
      (λ j away. elim (Bool-cases (ltb s j)) [
        | inl t ↦
            let l = ltb→lt s j t in
            get_or-set_above xs s j v 0 l
            ∙ h j (omega (arith, l), away)
            ∙ sym (get_or-set_above ys s j v 0 l)
        | inr t ↦ elim (Bool-cases (ltb j s)) [
          | inl u ↦
              let l = ltb→lt j s u in
              get_or-set_below xs s j v 0 l
              ∙ h j (omega (arith, l), away)
              ∙ sym (get_or-set_below ys s j v 0 l)
          | inr u ↦
              let same : j ≡ s = omega (arith, ltb→ge s j t, ltb→ge j s u) in
              rw same
                (get_or-set xs s v 0 first ∙ sym (get_or-set ys s v 0 (omega (arith, first, e))))
        ]
      ])

count_of-set :
    (l s v : ℕ) (xs : List ℕ)
    → 0 < l
    → s < length xs
    → get_or xs s 0 ≡ 0
    → count_of l (set xs s v) ≡ count_of l xs + (if v == l then 1 else 0)
count_of-set l s v [] pos h z = absurd (omega (arith, h))
count_of-set l zero v (x ∷ xs) pos h z =
    let other : (x == l) ≡ false = ne→== x l (omega (arith, pos, z)) in rw other (omega arith)
count_of-set l (suc s) v (x ∷ xs) pos h z =
    omega (arith, count_of-set l s v xs pos (omega (arith, h)) z)

pub count_of-put :
    (l : ℕ) (ss vs ys : List ℕ)
    → 0 < l
    → length vs ≡ length ss
    → Distinct ss
    → All (λ (s : ℕ). s < length ys) ss
    → All (λ (s : ℕ). get_or ys s 0 ≡ 0) ss
    → count_of l (put ys ss vs) ≡ count_of l ys + count_of l vs
count_of-put l [] [] ys pos n apart inside zeros = omega arith
count_of-put l [] (v ∷ vs) ys pos n apart inside zeros = absurd (omega (arith, n))
count_of-put l (s ∷ ss) [] ys pos n apart inside zeros = absurd (omega (arith, n))
count_of-put l (s ∷ ss) (v ∷ vs) ys pos n (fresh, apart) (first, inside) (zero_first, zeros) =
    omega (
      arith,
      count_of-put l ss vs (set ys s v) pos (omega (arith, n)) apart (rw (length-set ys s v) inside)
          (still ss fresh zeros),
      count_of-set l s v ys pos first zero_first,
    )
  where
    still :
        (ts : List ℕ)
        → All (λ (t : ℕ). t ≢ s) ts
        → All (λ (t : ℕ). get_or ys t 0 ≡ 0) ts
        → All (λ (t : ℕ). get_or (set ys s v) t 0 ≡ 0) ts
    still [] h g = tt
    still (t ∷ ts) (other, h) (z, g) = (
      elim (Bool-cases (ltb s t)) [
        | inl u ↦ get_or-set_above ys s t v 0 (ltb→lt s t u) ∙ z
        | inr u ↦
            let l : t < s = omega (arith, ltb→ge s t u, other) in get_or-set_below ys s t v 0 l ∙ z
      ],
      still ts h g,
    )

pub count_of-append :
    (l : ℕ) (xs ys : List ℕ) → count_of l (xs ++ ys) ≡ count_of l xs + count_of l ys
count_of-append l [] ys = omega arith
count_of-append l (x ∷ xs) ys = omega (arith, count_of-append l xs ys)

pub set-All :
    (k i v : ℕ) (xs : List ℕ)
    → All (λ (l : ℕ). l ≤ k) xs
    → v ≤ k
    → All (λ (l : ℕ). l ≤ k) (set xs i v)
set-All k i v [] h le = tt
set-All k zero v (x ∷ xs) (p, h) le = (le, h)
set-All k (suc i) v (x ∷ xs) (p, h) le = (p, set-All k i v xs h le)

pub put-All :
    (k : ℕ) (ss vs xs : List ℕ)
    → All (λ (l : ℕ). l ≤ k) xs
    → All (λ (l : ℕ). l ≤ k) vs
    → All (λ (l : ℕ). l ≤ k) (put xs ss vs)
put-All k [] vs xs h g = h
put-All k (s ∷ ss) [] xs h g = h
put-All k (s ∷ ss) (v ∷ vs) xs h (le, g) = put-All k ss vs (set xs s v) (set-All k s v xs h le) g

-- A symbol that gets no length keeps what it has.
put-away :
    (ss vs xs : List ℕ) (s : ℕ)
    → All (λ (t : ℕ). t ≢ s) ss
    → get_or (put xs ss vs) s 0 ≡ get_or xs s 0
put-away [] vs xs s h = refl
put-away (t ∷ ss) [] xs s h = refl
put-away (t ∷ ss) (v ∷ vs) xs s (ne, h) =
    put-away ss vs (set xs t v) s h ∙ elim (Bool-cases (ltb t s)) [
      | inl u ↦ get_or-set_above xs t s v 0 (ltb→lt t s u)
      | inr u ↦ let l : s < t = omega (arith, ltb→ge t s u, ne) in get_or-set_below xs t s v 0 l
    ]

-- A symbol that gets a length gets one that is not zero, where all of them are so.
pub put-used :
    (ss vs xs : List ℕ) (s : ℕ)
    → length vs ≡ length ss
    → Distinct ss
    → All (λ (t : ℕ). t < length xs) ss
    → All (λ (v : ℕ). 0 < v) vs
    → 0 < count_of s ss
    → 0 < get_or (put xs ss vs) s 0
put-used [] vs xs s n d inside h pos = absurd (omega (arith, pos))
put-used (t ∷ ss) [] xs s n d inside h pos = absurd (omega (arith, n))
put-used (t ∷ ss) (v ∷ vs) xs s n (fresh, d) (first, inside) (p, h) pos =
    elim (Bool-cases (t == s)) [
      | inl u ↦
          let e : s ≡ t = sym ((==_iff t s).0 u) in
          let there = put-away ss vs (set xs t v) t fresh ∙ get_or-set xs t v 0 first in
          omega (arith, ap (λ (i : ℕ). get_or (put (set xs t v) ss vs) i 0) e, there, p)
      | inr u ↦
          put-used ss vs (set xs t v) s (omega (arith, n)) d (rw (length-set xs t v) inside) h
            (ground (arith, pos, u))
    ]
