-- ===== src/Compress/Huffman/Tree/Words.antt =====
-- The two parts of an entry of the tree in src/compress/huffman.rs, and the accesses in bounds.
use zenflate.Prelude.{
  ℕ, zero, suc, ◌+◌, ◌*◌, ◌/◌, ◌%◌, ◌^◌, ◌<◌, bit_and, bit_or, List, length, get_or, set, ltb,
  arith, ◌≡◌, refl, ap, ◌∙◌, lt→ltb, length-set, ◌≤◌, inl, inr, Bool-cases, ltb→lt, ltb→ge,
  get_or-set, get_or-set_above, get_or-set_below,
}
use zenflate.Prelude.Bits.{bit_or_disjoint, bit_and_mask, bit_and_step, mul-two_pow_suc}
use zenflate.Prelude.Arith.{mod_half}
use zenflate.Prelude.Words.{add32, shl32}
use zenflate.Outcome.{ok, store}
use zenflate.Decompress.Output.Fast.{read-ok}
use zenflate.Compress.Huffman.Tree.{set_high, set_freq}

-- The part of an entry above its symbol.
abbrev pub high : List ℕ → ℕ → ℕ
high a k = get_or a k 0 / 1024

abbrev pub symbol : List ℕ → ℕ → ℕ
symbol a k = get_or a k 0 % 1024

abbrev pub high_word : ℕ → ℕ → ℕ
high_word x v = bit_or (bit_and x 0x3ff) (shl32 v 10)

pub high_word-eq : (x v : ℕ) → v < 2 ^ 22 → high_word x v ≡ x % 1024 + v * 1024
high_word-eq x v h =
    let word : shl32 v 10 ≡ v * 2 ^ 10 = omega (arith, h) in
    rw (word, bit_and_mask 10 x) (bit_or_disjoint 10 (x % 1024) v (omega arith))

pub high_word-high : (x v : ℕ) → v < 2 ^ 22 → high_word x v / 1024 ≡ v
high_word-high x v h = omega (arith, high_word-eq x v h)

pub high_word-symbol : (x v : ℕ) → v < 2 ^ 22 → high_word x v % 1024 ≡ x % 1024
high_word-symbol x v h = omega (arith, high_word-eq x v h)

pub store-ok {ℓ} :
    (E : Type ℓ) (xs : List ℕ) (i v : ℕ) → i < length xs → store {E = E} xs i v ≡ ok (set xs i v)
unfolding store
store-ok E xs i v h = rw (lt→ltb i (length xs) h) refl

module _ {ℓ} (E : Type ℓ) where
  pub set_high-ok :
      (a : List ℕ) (k v : ℕ)
      → k < length a
      → set_high {E = E} a k v ≡ ok (set a k (high_word (get_or a k 0) v))
  unfolding set_high
  set_high-ok a k v h = rw (read-ok E a k h) (store-ok E a k (high_word (get_or a k 0) v) h)

  pub set_freq-ok :
      (a : List ℕ) (e f : ℕ)
      → e < length a
      → set_freq {E = E} a e f ≡ ok (set a e (bit_or (bit_and (get_or a e 0) 0x3ff) f))
  unfolding set_freq
  set_freq-ok a e f h =
      rw (read-ok E a e h) (store-ok E a e (bit_or (bit_and (get_or a e 0) 0x3ff) f) h)

-- The frequency mask clears the symbol.
high_bits : (k x m : ℕ) → bit_and x (m * 2 ^ k) % 2 ^ k ≡ 0
high_bits zero x m = omega arith
high_bits (suc k) x m =
    let y = m * 2 ^ suc k in
    let twice : y ≡ 2 * (m * 2 ^ k) = mul-two_pow_suc m k in
    let half : y / 2 ≡ m * 2 ^ k = omega (arith, twice) in
    let rest : bit_and (x / 2) (y / 2) % 2 ^ k ≡ 0 = rw half (high_bits k (x / 2) m) in
    let whole = bit_and x y in
    let step : whole ≡ bit_and (x / 2) (y / 2) * 2 + 0 = omega (arith, twice, bit_and_step x y) in
    let halved : whole / 2 ≡ bit_and (x / 2) (y / 2) = omega (arith, step) in
    let rest_of : whole / 2 % 2 ^ k ≡ 0 = rw halved rest in
    omega (arith, mod_half whole k, step, rest_of)

freq-low : (x : ℕ) → bit_and x 0xfffffc00 % 1024 ≡ 0
freq-low x = high_bits 10 x 0x3fffff

pub sum-low : (x y : ℕ) → add32 (bit_and x 0xfffffc00) (bit_and y 0xfffffc00) % 1024 ≡ 0
sum-low x y = omega (arith, freq-low x, freq-low y)

pub freq_word-symbol : (x f : ℕ) → f % 1024 ≡ 0 → bit_or (bit_and x 0x3ff) f % 1024 ≡ x % 1024
freq_word-symbol x f z =
    let e : f ≡ f / 1024 * 2 ^ 10 = omega (arith, z) in
    let word : bit_or (x % 1024) f ≡ x % 1024 + f / 1024 * 2 ^ 10 =
      ap (bit_or (x % 1024)) e ∙ bit_or_disjoint 10 (x % 1024) (f / 1024) (omega arith) in
    rw (bit_and_mask 10 x) (omega (arith, word))

-- A step of the construction keeps the symbols, and the entries below `j`.
pub record Kept (j : ℕ) (a b : List ℕ) : Type 0 where
  pub size : length b ≡ length a
  pub symbols : (k : ℕ) → symbol b k ≡ symbol a k
  pub below : (k : ℕ) → k < j → high b k ≡ high a k

pub Kept-refl : (a : List ℕ) (j : ℕ) → Kept j a a
Kept-refl a j = record { size = refl; symbols = λ k. refl; below = λ k l. refl }

pub Kept-trans : (j m n : ℕ) (a b c : List ℕ) → j ≤ m → j ≤ n → Kept m a b → Kept n b c → Kept j a c
Kept-trans j m n a b c g h u v = record {
  size = v.size ∙ u.size;
  symbols = λ k. v.symbols k ∙ u.symbols k;
  below = λ k l. v.below k (omega (arith, l, h)) ∙ u.below k (omega (arith, l, g));
}

pub set-Kept : (a : List ℕ) (j v : ℕ) → j < length a → v % 1024 ≡ symbol a j → Kept j a (set a j v)
set-Kept a j v h e = record {
  size = length-set a j v;
  symbols = symbols;
  below = λ k l. ap (λ (t : ℕ). t / 1024) (get_or-set_below a j k v 0 l);
}
  where
    symbols : (k : ℕ) → symbol (set a j v) k ≡ symbol a k
    symbols k = elim (Bool-cases (ltb k j)) [
      | inl t ↦ ap (λ (t : ℕ). t % 1024) (get_or-set_below a j k v 0 (ltb→lt k j t))
      | inr t ↦ elim (Bool-cases (ltb j k)) [
        | inl u ↦ ap (λ (t : ℕ). t % 1024) (get_or-set_above a j k v 0 (ltb→lt j k u))
        | inr u ↦
            let same : k ≡ j = omega (arith, ltb→ge k j t, ltb→ge j k u) in
            rw same (ap (λ (t : ℕ). t % 1024) (get_or-set a j v 0 h) ∙ e)
      ]
    ]
