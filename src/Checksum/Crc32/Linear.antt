-- ===== src/Checksum/Crc32/Linear.antt =====
-- The CRC-32 register, one bit at a time: the step is linear for `^`, and after eight steps the
-- upper bits have moved down a byte.
use zenflate.Prelude.{
  ℕ, zero, suc, ◌+◌, ◌*◌, ◌/◌, ◌%◌, ◌^◌, ◌<◌, bit_and, bit_xor, ◌==◌, not, if◌then◌else◌, arith,
  ◌≡◌, refl, ap, ◌∙◌, sym, inl, inr, ◌⊎◌,
}
use native.Mathlib.Decide.{dec_lt}
use zenflate.Prelude.Bits.{bit_and_mask}
use native.Mathlib.Nat.{pow-suc, div-add-mod}
use zenflate.Prelude.Arith.{two_pow_pos}
use zenflate.Prelude.Bits.Xor.{
  bit_xor-half, bit_xor-parity, bit_xor-zero, bit_xor_comm, bit_xor-lt, bit_xor_disjoint,
  bit_xor_exchange,
}
use zenflate.Checksum.Crc32.{crc32_poly, next_bit, next_bits}

-- What the lowest bit adds.
feedback : ℕ → ℕ
feedback b = if not (b == 0) then crc32_poly else 0

feedback-sum :
    (a b : ℕ) → a < 2 → b < 2 → feedback ((a + b) % 2) ≡ bit_xor (feedback a) (feedback b)
unfolding feedback
feedback-sum zero zero h k = refl
feedback-sum zero (suc zero) h k = refl
feedback-sum (suc zero) zero h k = refl
feedback-sum (suc zero) (suc zero) h k = refl
feedback-sum (suc (suc a)) b h k = absurd (omega arith)
feedback-sum zero (suc (suc b)) h k = absurd (omega arith)
feedback-sum (suc zero) (suc (suc b)) h k = absurd (omega arith)

parity-cases : (b : ℕ) → (b % 2 ≡ 0) ⊎ (b % 2 ≡ 1)
parity-cases b = elim (dec_lt (b % 2) 1) [ yes h ↦ inl (omega arith) | no h ↦ inr (omega arith) ]

next_bit-feedback : (c : ℕ) → next_bit c ≡ bit_xor (c / 2) (feedback (c % 2))
unfolding next_bit feedback
next_bit-feedback c =
    let m = bit_and_mask 1 c in
    elim (parity-cases c) [
      | inl even ↦ let e : bit_and c 1 ≡ 0 = m ∙ even in rw (e, even) (sym (bit_xor-zero (c / 2)))
      | inr odd ↦ let e : bit_and c 1 ≡ 1 = m ∙ odd in rw (e, odd) refl
    ]

pub next_bit-xor : (a b : ℕ) → next_bit (bit_xor a b) ≡ bit_xor (next_bit a) (next_bit b)
next_bit-xor a b =
    let p : bit_xor a b % 2 ≡ (a % 2 + b % 2) % 2 = omega (arith, bit_xor-parity a b) in
    next_bit-feedback (bit_xor a b)
    ∙ ap (λ t. bit_xor t (feedback (bit_xor a b % 2))) (bit_xor-half a b)
    ∙ ap (λ t. bit_xor (bit_xor (a / 2) (b / 2)) (feedback t)) p
    ∙ ap (bit_xor (bit_xor (a / 2) (b / 2)))
        (feedback-sum (a % 2) (b % 2) (omega arith) (omega arith))
    ∙ bit_xor_exchange (a / 2) (b / 2) (feedback (a % 2)) (feedback (b % 2))
    ∙ ap (λ t. bit_xor t (bit_xor (b / 2) (feedback (b % 2)))) (sym (next_bit-feedback a))
    ∙ ap (bit_xor (next_bit a)) (sym (next_bit-feedback b))

pub next_bits-xor :
    (n a b : ℕ) → next_bits n (bit_xor a b) ≡ bit_xor (next_bits n a) (next_bits n b)
unfolding next_bits
next_bits-xor zero a b = refl
next_bits-xor (suc n) a b =
    ap (next_bits n) (next_bit-xor a b) ∙ next_bits-xor n (next_bit a) (next_bit b)

pub next_bits-add : (m n c : ℕ) → next_bits (m + n) c ≡ next_bits n (next_bits m c)
unfolding next_bits
next_bits-add zero n c = let e : 0 + n ≡ n = omega arith in ap (λ (t : ℕ). next_bits t c) e
next_bits-add (suc m) n c =
    let e : suc m + n ≡ suc (m + n) = omega arith in
    ap (λ (t : ℕ). next_bits t c) e ∙ next_bits-add m n (next_bit c)

pub next_bits-zero : (n : ℕ) → next_bits n 0 ≡ 0
unfolding next_bits next_bit
next_bits-zero zero = refl
next_bits-zero (suc n) = next_bits-zero n

next_bit-even : (q : ℕ) → next_bit (q * 2) ≡ q
next_bit-even q =
    let a : q * 2 / 2 ≡ q = omega arith in
    let b : q * 2 % 2 ≡ 0 = omega arith in
    next_bit-feedback (q * 2)
    ∙ ap (λ t. bit_xor t (feedback (q * 2 % 2))) a
    ∙ ap (λ t. bit_xor q (feedback t)) b
    ∙ unfold feedback in bit_xor-zero q

pub next_bits-shift : (n q : ℕ) → next_bits n (q * 2 ^ n) ≡ q
unfolding next_bits
next_bits-shift zero q = omega arith
next_bits-shift (suc n) q =
    let e : q * 2 ^ suc n ≡ q * 2 ^ n * 2 = omega (arith, ap (λ (t : ℕ). q * t) (pow-suc 2 n)) in
    ap (λ (t : ℕ). next_bits n (next_bit t)) e
    ∙ ap (next_bits n) (next_bit-even (q * 2 ^ n))
    ∙ next_bits-shift n q

-- The low bits go through the register, the others move down.
pub next_bits-split : (n c : ℕ) → next_bits n c ≡ bit_xor (c / 2 ^ n) (next_bits n (c % 2 ^ n))
next_bits-split n c =
    let r = c % 2 ^ n in
    let q = c / 2 ^ n in
    let e : c ≡ r + q * 2 ^ n = omega (arith, two_pow_pos n, div-add-mod c (2 ^ n)) in
    ap (next_bits n) (e ∙ sym (bit_xor_disjoint n r q (mod_lt c n)))
    ∙ next_bits-xor n r (q * 2 ^ n)
    ∙ ap (bit_xor (next_bits n r)) (next_bits-shift n q)
    ∙ bit_xor_comm (next_bits n r) q
  where
    mod_lt : (x k : ℕ) → x % 2 ^ k < 2 ^ k
    mod_lt x k = omega (arith, two_pow_pos k)

feedback-lt : (b : ℕ) → feedback b < 2 ^ 32
unfolding feedback
feedback-lt zero = omega arith
feedback-lt (suc b) = ground arith

pub next_bit-lt : (c : ℕ) → c < 2 ^ 32 → next_bit c < 2 ^ 32
next_bit-lt c h =
    let lt = bit_xor-lt 32 (c / 2) (feedback (c % 2)) (omega arith) (feedback-lt (c % 2)) in
    omega (arith, next_bit-feedback c, lt)

pub next_bits-lt : (n c : ℕ) → c < 2 ^ 32 → next_bits n c < 2 ^ 32
unfolding next_bits
next_bits-lt zero c h = h
next_bits-lt (suc n) c h = next_bits-lt n (next_bit c) (next_bit-lt c h)
