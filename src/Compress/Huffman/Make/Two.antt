-- ===== src/Compress/Huffman/Make/Two.antt =====
-- The code of two symbols of `make_huffman_code` of src/compress/huffman.rs is canonical too.
use zenflate.Prelude.{
  ℕ, zero, suc, ◌-◌, ◌^◌, ◌≤◌, ◌<◌, List, [], ◌∷◌, ◌++◌, length, get_or, set, take, drop, replicate,
  All, ltb, ◌==◌, arith, ◌≡◌, ◌≢◌, ◌⊎◌, refl, sym, ap, ◌∙◌, inl, inr, Bool-cases, ltb→lt, ltb→ge,
  ==_iff, length-set, length-replicate, length-append, length-drop, drop_all, append_empty,
  get_or-set, get_or-set_above, get_or-set_below,
}
use mathlib.Core.Path.{subst}
use mathlib.Core.Bool.{true≢false}
use zenflate.Compress.Huffman.{reverse_codeword, bitreverse_tab}
use zenflate.Compress.Huffman.Weight.{count_of, weight, weight-zero}
use zenflate.Compress.Huffman.Assign.{IsLen, codeword_of, get_or-canonical_codewords}
use zenflate.Compress.Huffman.Make.{two_symbols}
use zenflate.Compress.Huffman.Make.Code.{IsCode, two_symbols-IsCode}
use zenflate.Compress.Huffman.Make.Codewords.{IsCanonical}

take-set : (i v : ℕ) (xs : List ℕ) → take i (set xs i v) ≡ take i xs
take-set zero v xs = refl
take-set (suc i) v [] = refl
take-set (suc i) v (x ∷ xs) = ap (λ t. x ∷ t) (take-set i v xs)

no_ones : (i m : ℕ) → count_of 1 (take i (replicate m 0)) ≡ 0
no_ones zero m = refl
no_ones (suc i) zero = refl
no_ones (suc i) (suc m) = omega (arith, no_ones i m)

one_before : (i n : ℕ) → 1 ≤ i → 1 ≤ n → count_of 1 (take i (set (replicate n 0) 0 1)) ≡ 1
one_before zero n pos h = absurd (omega (arith, pos))
one_before (suc i) zero pos h = absurd (omega (arith, h))
one_before (suc i) (suc n) pos h = omega (arith, no_ones i n)

pub All-IsLen : (k : ℕ) (xs : List ℕ) → k < 16 → All (λ (l : ℕ). l ≤ k) xs → All IsLen xs
All-IsLen k [] h g = tt
All-IsLen k (x ∷ xs) h (p, g) = (omega (arith, p, h), All-IsLen k xs h g)

reverse_zero : reverse_codeword 0 1 ≡ 0
unfolding reverse_codeword bitreverse_tab
reverse_zero = refl

reverse_unit : reverse_codeword 1 1 ≡ 1
unfolding reverse_codeword bitreverse_tab
reverse_unit = refl

-- The codewords that one bit holds.
reverse_one : (c l : ℕ) → l ≡ 1 → c < 2 → reverse_codeword c l ≡ c
reverse_one c l e h = elim (Bool-cases (c == 0)) [
  | inl t ↦ let z : c ≡ 0 = (==_iff c 0).0 t in rw (e, z) reverse_zero
  | inr t ↦ let z : c ≡ 1 = ground (arith, t, h) in rw (e, z) reverse_unit
]

pub length-two_symbols :
    (n i : ℕ) (lens codes : List ℕ) → length lens ≡ n → length (two_symbols n i lens codes).0 ≡ n
unfolding two_symbols
length-two_symbols n i lens codes size =
    let start = replicate n 0 ++ drop n lens in
    length-set (set start 0 1) i 1
    ∙ length-set start 0 1
    ∙ length-append (replicate n 0) (drop n lens)
    ∙ omega (arith, length-replicate {A = ℕ} n 0, length-drop n lens, size)

module _ (n k i : ℕ) (lens codes : List ℕ) (long : 1 ≤ k) (short : k < 16) (few : n < 2 ^ 15)
    (pos : 1 ≤ i) (inside : i < n) (size : length lens ≡ n) where
  abbrev out : List ℕ
  out = set (set (replicate n 0) 0 1) i 1

  size-out : length out ≡ n
  size-out =
      length-set (set (replicate n 0) 0 1) i 1
      ∙ length-set (replicate n 0) 0 1
      ∙ length-replicate {A = ℕ} n 0

  at_zero : get_or out 0 0 ≡ 1
  at_zero =
      get_or-set_below (set (replicate n 0) 0 1) i 0 1 0 pos
      ∙ get_or-set (replicate n 0) 0 1 0 (omega (arith, inside, length-replicate {A = ℕ} n 0))

  at_other : get_or out i 0 ≡ 1
  at_other =
      get_or-set (set (replicate n 0) 0 1) i 1 0 (
        omega (arith, inside, length-set {A = ℕ} (replicate n 0) 0 1, length-replicate {A = ℕ} n 0))

  elsewhere : (j : ℕ) → j ≢ 0 → j ≢ i → get_or out j 0 ≡ 0
  elsewhere j ne away =
      elim (Bool-cases (ltb i j)) [
        | inl t ↦ get_or-set_above (set (replicate n 0) 0 1) i j 1 0 (ltb→lt i j t)
        | inr t ↦
            get_or-set_below (set (replicate n 0) 0 1) i j 1 0 (omega (arith, ltb→ge i j t, away))
      ]
      ∙ get_or-set_above (replicate n 0) 0 j 1 0 (omega (arith, ne))
      ∙ zero_at n j
    where
      zero_at : (m p : ℕ) → get_or {A = ℕ} (replicate m 0) p 0 ≡ 0
      zero_at zero p = refl
      zero_at (suc m) zero = refl
      zero_at (suc m) (suc p) = zero_at m p

  whole : replicate n 0 ++ drop n lens ≡ replicate n 0
  whole =
      ap (λ t. replicate n 0 ++ t) (drop_all n lens (omega (arith, size)))
      ∙ append_empty (replicate n 0)

  out-IsCode : (codes : List ℕ) → IsCode k out
  unfolding two_symbols
  out-IsCode codes =
      subst (λ (t : List ℕ). IsCode k (set (set t 0 1) i 1)) whole
        (two_symbols-IsCode n k (omega (arith, pos, inside)) long i lens codes pos inside size)

  out-IsCanonical : (cw : List ℕ) → get_or cw 0 0 ≡ 0 → get_or cw i 0 ≡ 1 → IsCanonical k (out, cw)
  out-IsCanonical cw first second j h used =
      let code = out-IsCode cw in
      let lens_ok = All-IsLen k out short code.1 in
      let canonical = λ (e : get_or out j 0 ≡ 1).
        get_or-canonical_codewords out cw k j lens_ok long short (omega (arith, size-out, few))
          (omega (arith, code.0)) h used (omega (arith, e, long)) in
      let one_less =
        λ (e : get_or out j 0 ≡ 1). ap (λ (t : ℕ). weight (t - 1) out) e ∙ weight-zero out in
      elim (Bool-cases (j == i)) [
        | inl t ↦
            let z : j ≡ i = (==_iff j i).0 t in
            let e : get_or out j 0 ≡ 1 = ap (λ (p : ℕ). get_or out p 0) z ∙ at_other in
            let count : count_of (get_or out j 0) (take j out) ≡ 1 =
              ap (λ (l : ℕ). count_of l (take j out)) e
              ∙ ap (λ (p : ℕ). count_of 1 (take p out)) z
              ∙ ap (count_of 1) (take-set i 1 (set (replicate n 0) 0 1))
              ∙ one_before i n pos (omega (arith, inside)) in
            let c : codeword_of out j ≡ 1 = omega (arith, one_less e, count) in
            ap (λ (p : ℕ). get_or cw p 0) z
            ∙ second
            ∙ sym (
                canonical e
                ∙ reverse_one (codeword_of out j) (get_or out j 0) e (omega (arith, c))
                ∙ c)
        | inr t ↦ elim (Bool-cases (j == 0)) [
          | inl u ↦
              let z : j ≡ 0 = (==_iff j 0).0 u in
              let e : get_or out j 0 ≡ 1 = ap (λ (p : ℕ). get_or out p 0) z ∙ at_zero in
              let count : count_of (get_or out j 0) (take j out) ≡ 0 =
                ap (λ (p : ℕ). count_of (get_or out j 0) (take p out)) z in
              let c : codeword_of out j ≡ 0 = omega (arith, one_less e, count) in
              ap (λ (p : ℕ). get_or cw p 0) z
              ∙ first
              ∙ sym (
                  canonical e
                  ∙ reverse_one (codeword_of out j) (get_or out j 0) e (omega (arith, c))
                  ∙ c)
          | inr u ↦
              let not_zero : j ≢ 0 = λ w. true≢false (sym ((==_iff j 0).1 w) ∙ u) in
              let not_other : j ≢ i = λ w. true≢false (sym ((==_iff j i).1 w) ∙ t) in
              absurd (omega (arith, used, elsewhere j not_zero not_other))
        ]
      ]

  pub two_symbols-IsCanonical : n ≤ length codes → IsCanonical k (two_symbols n i lens codes)
  unfolding two_symbols
  two_symbols-IsCanonical room =
      let start = replicate n 0 ++ drop n codes in
      let cw = set (set start 0 0) i 1 in
      let long_enough : n ≤ length start =
        omega (arith, length-append (replicate n 0) (drop n codes), length-replicate {A = ℕ} n 0) in
      subst (λ (t : List ℕ). IsCanonical k (set (set t 0 1) i 1, cw)) (sym whole)
        (out-IsCanonical cw
          (get_or-set_below (set start 0 0) i 0 1 0 pos
            ∙ get_or-set start 0 0 0 (omega (arith, long_enough, inside)))
          (get_or-set (set start 0 0) i 1 0
            (omega (arith, long_enough, inside, length-set start 0 0))))

  -- The two symbols have a length.
  pub two_symbols-used : (s : ℕ) → (s ≡ 0) ⊎ (s ≡ i) → 0 < get_or (two_symbols n i lens codes).0 s 0
  unfolding two_symbols
  two_symbols-used s which =
      subst (λ (t : List ℕ). 0 < get_or (set (set t 0 1) i 1) s 0) (sym whole)
        (elim which [
          | inl e ↦ omega (arith, ap (λ (p : ℕ). get_or out p 0) e, at_zero)
          | inr e ↦ omega (arith, ap (λ (p : ℕ). get_or out p 0) e, at_other)
        ])
