-- ===== src/Compress/Huffman/Make/Code.antt =====
-- `make_huffman_code` of src/compress/huffman.rs: its two cases, and the code of two symbols.
use zenflate.Prelude.{
  ℕ, zero, suc, ◌+◌, ◌-◌, ◌*◌, ◌^◌, ◌≤◌, ◌<◌, bit_and, List, [], ◌∷◌, length, get_or, set, drop,
  replicate, All, not, ltb, ◌==◌, if◌then◌else◌, arith, ◌≡◌, refl, ap, ◌∙◌, inl, inr, Bool-cases,
  ltb→lt, length-set, length-replicate, append_empty, drop_all, get_or-set_above,
}
use zenflate.Prelude.Arith.{two_pow_suc}
use zenflate.Prelude.Bits.{bit_and_mask}
use zenflate.Outcome.{Outcome, ok, err, panic, out_of_fuel, ◌>>=◌}
use zenflate.Compress.Huffman.Weight.{share, weight}
use zenflate.Compress.Huffman.Tree.{symbol_mask, build_tree, compute_length_counts}
use zenflate.Compress.Huffman.Tree.Words.{symbol}
use zenflate.Compress.Huffman.Tree.Space.{total}
use zenflate.Compress.Huffman.Make.{gen_codewords, two_symbols}
use zenflate.Compress.Huffman.Make.Put.{set-All}
use zenflate.Compress.Huffman.Make.Lengths.{symbols_from, codewords}
use zenflate.Compress.Huffman.Make.Count.{symbols_from-All}
use zenflate.Compress.Huffman.Make.Sort.{Sorted}

weight-set :
    (k i v : ℕ) (xs : List ℕ)
    → i < length xs
    → weight k (set xs i v) + share k (get_or xs i 0) ≡ weight k xs + share k v
weight-set k i v [] h = absurd (omega (arith, h))
weight-set k zero v (x ∷ xs) h = omega arith
weight-set k (suc i) v (x ∷ xs) h = omega (arith, weight-set k i v xs (omega (arith, h)))

pub total-codewords : (k : ℕ) (cs : List ℕ) → total k cs ≡ codewords k cs + get_or cs 0 0
total-codewords zero [] = refl
total-codewords zero (c ∷ cs) = omega arith
total-codewords (suc k) cs = omega (arith, total-suc k cs, total-codewords k cs)
  where
    total-suc : (j : ℕ) (xs : List ℕ) → total (suc j) xs ≡ total j xs + get_or xs (suc j) 0
    total-suc j [] = refl
    total-suc zero (x ∷ []) = omega arith
    total-suc zero (x ∷ y ∷ xs) = omega arith
    total-suc (suc j) (x ∷ xs) = omega (arith, total-suc j xs)

pub same_symbols :
    (a b : List ℕ)
    → ((k : ℕ) → symbol b k ≡ symbol a k)
    → (i n : ℕ) → symbols_from b i n ≡ symbols_from a i n
same_symbols a b h i zero = refl
same_symbols a b h i (suc n) =
    ap (λ t. t ∷ symbols_from b (i + 1) n) (h i)
    ∙ ap (λ t. symbol a i ∷ t) (same_symbols a b h (i + 1) n)

-- The lengths of a complete code, none above `k`.
abbrev pub IsCode : ℕ → List ℕ → Type 0
IsCode k lens = (weight k lens ≡ 2 ^ k) × All (λ (l : ℕ). l ≤ k) lens

module _ (n k : ℕ) (least : 2 ≤ n) (long : 1 ≤ k) where
  zeros-weight : (m : ℕ) → weight k (replicate m 0) ≡ 0
  zeros-weight zero = refl
  zeros-weight (suc m) = omega (arith, zeros-weight m)

  zeros-All : (m : ℕ) → All (λ (l : ℕ). l ≤ k) (replicate m 0)
  zeros-All zero = tt
  zeros-All (suc m) = (omega arith, zeros-All m)

  zero_at : (m j : ℕ) → get_or {A = ℕ} (replicate m 0) j 0 ≡ 0
  zero_at zero j = refl
  zero_at (suc m) zero = refl
  zero_at (suc m) (suc j) = zero_at m j

  share-one : share k 1 + share k 1 ≡ 2 ^ k
  share-one =
      let e : k ≡ suc (k - 1) = omega (arith, long) in
      let p : 2 ^ k ≡ 2 * 2 ^ (k - 1) = ap (λ (t : ℕ). 2 ^ t) e ∙ two_pow_suc (k - 1) in
      ground (arith, p, long)

  pub two_symbols-IsCode :
      (i : ℕ) (lens codes : List ℕ)
      → 1 ≤ i
      → i < n
      → length lens ≡ n
      → IsCode k (two_symbols n i lens codes).0
  unfolding two_symbols
  two_symbols-IsCode i lens codes pos h size =
      let none : drop n lens ≡ [] = drop_all n lens (omega (arith, size)) in
      let zeros : List ℕ = replicate n 0 in
      let len : length zeros ≡ n = length-replicate {A = ℕ} n 0 in
      let one = set zeros 0 1 in
      let first = weight-set k 0 1 zeros (omega (arith, len, least)) in
      let second = weight-set k i 1 one (omega (arith, len, h, length-set zeros 0 1)) in
      let still : get_or one i 0 ≡ 0 = get_or-set_above zeros 0 i 1 0 pos ∙ zero_at n i in
      let empty : share k 0 ≡ 0 = ground arith in
      rw (none, append_empty zeros)
        (
          omega (
            arith,
            first,
            second,
            zeros-weight n,
            ap (share k) still,
            ap (share k) (zero_at n 0),
            empty,
            share-one,
          ),
          set-All k i 1 one (set-All k 0 1 zeros (zeros-All n) long) long,
        )

-- The second symbol of a code of two symbols.
pub other_symbol-bounds :
    (n x : ℕ)
    → 2 ≤ n
    → x < n
    → (1 ≤ (if not (x == 0) then x else 1)) × ((if not (x == 0) then x else 1) < n)
other_symbol-bounds n x least h = elim (Bool-cases (x == 0)) [
  | inl t ↦ rw t (omega arith, omega (arith, least))
  | inr t ↦ rw t (ground (arith, t), h)
]

pub first_symbol-lt :
    (n : ℕ) (freqs : List ℕ) (r : ℕ × List ℕ × List ℕ)
    → 2 ≤ n
    → Sorted n freqs r
    → (if ltb 0 r.0 then bit_and (get_or r.2 0 0) symbol_mask else 0) < n
first_symbol-lt n freqs r least v = elim (Bool-cases (ltb 0 r.0)) [
  | inr t ↦ rw t (omega (arith, least))
  | inl t ↦
      let some_used = ltb→lt 0 r.0 t in
      let first =
        symbols_from-All (λ (s : ℕ). s < length r.1) r.2 0 r.0 0 v.used.inside (omega arith)
          (omega (arith, some_used)) in
      rw (t, bit_and_mask 10 (get_or r.2 0 0)) (omega (arith, first, v.size))
]

bind_assoc {ℓ} :
    {E : Type ℓ} {A B C : Type 0} (o : Outcome E A) (f : A → Outcome E B) (g : B → Outcome E C)
    → (o >>= (λ x. f x >>= g)) ≡ ((o >>= f) >>= g)
bind_assoc (ok x) f g = refl
bind_assoc (err e) f g = refl
bind_assoc panic f g = refl
bind_assoc out_of_fuel f g = refl

-- The chain of calls where two symbols at least are used.
pub code-eq {ℓ} :
    (E : Type ℓ) (k n used : ℕ) (lens a marked counts : List ℕ)
    → (build_tree {E = E} a used
        >>= (λ tree. compute_length_counts tree (used - 2) (replicate 16 0) k))
      ≡ ok (marked, counts)
    → (do
      tree ← build_tree {E = E} a used
      (m, c) ← compute_length_counts tree (used - 2) (replicate 16 0) k
      ok (gen_codewords m lens c k n))
      ≡ ok (gen_codewords marked lens counts k n)
code-eq E k n used lens a marked counts eq =
    bind_assoc (build_tree {E = E} a used)
      (λ tree. compute_length_counts tree (used - 2) (replicate 16 0) k)
      (λ r. ok (gen_codewords r.0 lens r.1 k n))
    ∙ ap (λ o. o >>= (λ r. ok (gen_codewords r.0 lens r.1 k n))) eq
