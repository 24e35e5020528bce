-- ===== src/Compress/Huffman/Reverse.antt =====
-- `reverse_codeword` of src/compress/huffman.rs, and what reversal does to prefixes.
use zenflate.Prelude.{
  ℕ, zero, suc, ◌+◌, ◌-◌, ◌*◌, ◌/◌, ◌%◌, ◌^◌, ◌≤◌, ◌<◌, bit_and, bit_or, get_or, arith, ◌≡◌, refl,
  sym, ap, ◌∙◌,
}
use native.Mathlib.Nat.{
  pow-suc, div-eq_of_lt, mod-eq_of_lt, mul-div_cancel, mul-add-div_right, mul-add-mod_self_right,
}
use zenflate.Prelude.Arith.{
  mul_mono, two_pow_suc, two_pow_pos, two_pow_add, two_pow_mono, div_half, mod_half,
}
use zenflate.Prelude.Bits.{
  bit_or_step, bit_or-zero, bit_and_mask, mul-two_pow_suc, agree_below, agree_below→eq,
}
use zenflate.Compress.Huffman.{bitreverse_tab, reverse_codeword}

-- The `n` low bits of a number in the other order.
unfoldable pub reverse_bits : ℕ → ℕ → ℕ
reverse_bits zero x = 0
reverse_bits (suc n) x = x % 2 * 2 ^ n + reverse_bits n (x / 2)

pub reverse_bits-lt : (n x : ℕ) → reverse_bits n x < 2 ^ n
unfolding reverse_bits
reverse_bits-lt zero x = omega arith
reverse_bits-lt (suc n) x = omega (
  arith,
  two_pow_suc n,
  reverse_bits-lt n (x / 2),
  mul_mono (x % 2) (2 ^ n) 1 (2 ^ n) (omega arith) (omega arith),
)

reverse_bits-add :
    (a b x : ℕ) → reverse_bits (a + b) x ≡ reverse_bits a x * 2 ^ b + reverse_bits b (x / 2 ^ a)
unfolding reverse_bits
reverse_bits-add zero b x =
    let z : 0 + b ≡ b = omega arith in
    let one : x ≡ x / 2 ^ 0 = omega arith in
    ap (λ (t : ℕ). reverse_bits t x) z ∙ ap (reverse_bits b) one ∙ omega arith
reverse_bits-add (suc a) b x =
    let e : suc a + b ≡ suc (a + b) = omega arith in
    let high : x % 2 * 2 ^ (a + b) ≡ x % 2 * 2 ^ a * 2 ^ b =
      ap (λ (t : ℕ). x % 2 * t) (two_pow_add a b) ∙ grind arith in
    let low : x / 2 ^ suc a ≡ x / 2 / 2 ^ a = div_half x a in
    ap (λ (t : ℕ). reverse_bits t x) e
    ∙ omega (arith, high, reverse_bits-add a b (x / 2), ap (reverse_bits b) low)

table-exact : (b : ℕ) → b < 256 → get_or bitreverse_tab b 0 ≡ reverse_bits 8 b
unfolding bitreverse_tab reverse_bits agree_below
table-exact = agree_below→eq (λ b. get_or bitreverse_tab b 0) (reverse_bits 8) 256 refl

reverse_bits-mod : (n x : ℕ) → reverse_bits n (x % 2 ^ n) ≡ reverse_bits n x
unfolding reverse_bits
reverse_bits-mod zero x = refl
reverse_bits-mod (suc n) x =
    let m = mod_half x n in
    let low : x % 2 ^ suc n % 2 ≡ x % 2 = omega (arith, m) in
    let high : x % 2 ^ suc n / 2 ≡ x / 2 % 2 ^ n = omega (arith, m) in
    ap (λ (t : ℕ). t * 2 ^ n + reverse_bits n (x % 2 ^ suc n / 2)) low
    ∙ ap (λ (t : ℕ). x % 2 * 2 ^ n + t) (ap (reverse_bits n) high ∙ reverse_bits-mod n (x / 2))

reverse_bits-zero : (n : ℕ) → reverse_bits n 0 ≡ 0
unfolding reverse_bits
reverse_bits-zero zero = refl
reverse_bits-zero (suc n) = omega (arith, reverse_bits-zero n)

or_above : (k q r : ℕ) → r < 2 ^ k → bit_or (q * 2 ^ k) r ≡ q * 2 ^ k + r
or_above zero q r h =
    let z : r ≡ 0 = omega arith in ap (bit_or (q * 2 ^ 0)) z ∙ bit_or-zero (q * 2 ^ 0) ∙ omega arith
or_above (suc k) q r h = ground (
  arith,
  bit_or_step (q * 2 ^ suc k) r,
  mul-two_pow_suc q k,
  or_above k q (r / 2) (omega (arith, pow-suc 2 k)),
)

-- `reverse_codeword` puts the `len` bits of a codeword in the other order, for a codeword of at most
-- 16 bits.
pub reverse_codeword-exact :
    (codeword len : ℕ)
    → codeword < 2 ^ len
    → len ≤ 16
    → reverse_codeword codeword len ≡ reverse_bits len codeword
unfolding reverse_codeword
reverse_codeword-exact codeword len h small =
    let low : bit_and codeword 0xff ≡ codeword % 2 ^ 8 = bit_and_mask 8 codeword in
    let top : codeword < 2 ^ 16 = omega (arith, h, two_pow_mono len 16 small) in
    let front : get_or bitreverse_tab (bit_and codeword 0xff) 0 ≡ reverse_bits 8 codeword =
      ap (λ (t : ℕ). get_or bitreverse_tab t 0) low
      ∙ table-exact (codeword % 2 ^ 8) (omega arith)
      ∙ reverse_bits-mod 8 codeword in
    let back = table-exact (codeword / 2 ^ 8) (omega (arith, top)) in
    let e : 16 ≡ len + (16 - len) = omega (arith, small) in
    let none_above : codeword / 2 ^ len ≡ 0 = div-eq_of_lt h in
    ap (λ (t : ℕ). bit_or (t * 2 ^ 8) (get_or bitreverse_tab (codeword / 2 ^ 8) 0) / 2 ^ (16 - len))
      front
    ∙ ap (λ (t : ℕ). bit_or (reverse_bits 8 codeword * 2 ^ 8) t / 2 ^ (16 - len)) back
    ∙ ap (λ (t : ℕ). t / 2 ^ (16 - len))
        (or_above 8 (reverse_bits 8 codeword) (reverse_bits 8 (codeword / 2 ^ 8))
          (reverse_bits-lt 8 (codeword / 2 ^ 8)))
    ∙ ap (λ (t : ℕ). t / 2 ^ (16 - len))
        (sym (reverse_bits-add 8 8 codeword)
          ∙ ap (λ (t : ℕ). reverse_bits t codeword) e
          ∙ reverse_bits-add len (16 - len) codeword
          ∙ ap (λ (t : ℕ). reverse_bits len codeword * 2 ^ (16 - len) + reverse_bits (16 - len) t)
              none_above
          ∙ ap (λ (t : ℕ). reverse_bits len codeword * 2 ^ (16 - len) + t)
              (reverse_bits-zero (16 - len)))
    ∙ ap (λ (t : ℕ). t / 2 ^ (16 - len)) (omega arith)
    ∙ mul-div_cancel (reverse_bits len codeword) (two_pow_pos (16 - len))

digits_same : (k a b r t : ℕ) → r < k → t < k → a * k + r ≡ b * k + t → (a ≡ b) × (r ≡ t)
digits_same k a b r t h g e =
    let pos : 0 < k = omega arith in
    let x : (a * k + r) / k ≡ a =
      mul-add-div_right pos a r ∙ ap (λ (w : ℕ). a + w) (div-eq_of_lt h) ∙ omega arith in
    let y : (b * k + t) / k ≡ b =
      mul-add-div_right pos b t ∙ ap (λ (w : ℕ). b + w) (div-eq_of_lt g) ∙ omega arith in
    let same : a ≡ b = sym x ∙ ap (λ (w : ℕ). w / k) e ∙ y in
    (same, omega (arith, e, ap (λ (w : ℕ). w * k) same))

-- The first `m` bits of a reversed word are its `m` high bits, reversed.
pub reverse_bits-prefix : (d m x : ℕ) → reverse_bits (d + m) x % 2 ^ m ≡ reverse_bits m (x / 2 ^ d)
reverse_bits-prefix d m x =
    ap (λ (t : ℕ). t % 2 ^ m) (reverse_bits-add d m x)
    ∙ mul-add-mod_self_right (reverse_bits d x) (2 ^ m) (reverse_bits m (x / 2 ^ d))
    ∙ mod-eq_of_lt (reverse_bits-lt m (x / 2 ^ d))

pub reverse_bits-injective :
    (n x y : ℕ) → x < 2 ^ n → y < 2 ^ n → reverse_bits n x ≡ reverse_bits n y → x ≡ y
unfolding reverse_bits
reverse_bits-injective zero x y h g e = omega arith
reverse_bits-injective (suc n) x y h g e =
    let a = reverse_bits-lt n (x / 2) in
    let b = reverse_bits-lt n (y / 2) in
    let (same, behind) =
      digits_same (2 ^ n) (x % 2) (y % 2) (reverse_bits n (x / 2)) (reverse_bits n (y / 2)) a b e in
    let p = two_pow_suc n in
    omega (
      arith,
      same,
      reverse_bits-injective n (x / 2) (y / 2) (omega (arith, p, h)) (omega (arith, p, g)) behind,
    )
