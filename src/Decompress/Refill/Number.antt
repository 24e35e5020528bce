-- ===== src/Decompress/Refill/Number.antt =====
-- The input of the bit reader as one number, and the bytes and words in it.
use zenflate.Prelude.{
  ℕ, zero, suc, ◌+◌, ◌-◌, ◌*◌, ◌/◌, ◌%◌, ◌^◌, ◌≤◌, ◌<◌, List, [], ◌∷◌, length, take, drop, get_or,
  arith, ◌≡◌, ap, ◌∙◌, sym, All, All-drop,
}
use zenflate.Prelude.Arith.{
  two_pow_add, two_pow_pos, two_pow_mono, two_pow_byte, mod_byte, mul-mod-mul, mod-mod_two_pow,
}
use native.Mathlib.Nat.{zero-div, zero-mod, div-div-eq-div-mul, div-eq_of_lt, le_trans}
use zenflate.Prelude.Words.{IsByte, from_le_bytes, shl64, from_le_bytes-lt}
use zenflate.Decompress.Refill.{load_u64_le}

-- The input as a number, its first bit the lowest. Behind its end it reads as zeros.
abbrev pub number : List ℕ → ℕ
number input = from_le_bytes input

shift_byte : (x y p : ℕ) → x < 256 → (x + 256 * y) / 2 ^ (8 * suc p) ≡ y / 2 ^ (8 * p)
shift_byte x y p h =
    ap (λ (t : ℕ). (x + 256 * y) / t) (two_pow_byte p)
    ∙ sym (div-div-eq-div-mul (x + 256 * y) 256 (2 ^ (8 * p)))
    ∙ ap (λ (t : ℕ). t / 2 ^ (8 * p)) (top x y h)
  where
    top : (a b : ℕ) → a < 256 → (a + 256 * b) / 256 ≡ b
    top a b k = omega arith

-- Dropping bytes shifts the number.
pub number-drop :
    (p : ℕ) (xs : List ℕ) → All IsByte xs → number (drop p xs) ≡ number xs / 2 ^ (8 * p)
unfolding from_le_bytes
number-drop zero xs h = omega arith
number-drop (suc p) [] h = sym (zero-div (2 ^ (8 * suc p)))
number-drop (suc p) (x ∷ xs) (b, h) = number-drop p xs h ∙ sym (shift_byte x (number xs) p b)

pub number-take :
    (k : ℕ) (xs : List ℕ) → All IsByte xs → number (take k xs) ≡ number xs % 2 ^ (8 * k)
unfolding from_le_bytes
number-take zero xs h = omega arith
number-take (suc k) [] h = sym (zero-mod (2 ^ (8 * suc k)))
number-take (suc k) (x ∷ xs) (b, h) =
    let e = number-take k xs h in
    let f = mod_byte (x + 256 * number xs) (2 ^ (8 * k)) (two_pow_pos (8 * k)) in
    let g : (x + 256 * number xs) / 256 ≡ number xs = omega arith in
    let i = ap (λ (t : ℕ). t % 2 ^ (8 * k)) g in
    omega (arith, ap (λ (t : ℕ). (x + 256 * number xs) % t) (two_pow_byte k))

-- The word, and the byte, at a position.
pub word_at :
    (xs : List ℕ) (p : ℕ) → All IsByte xs → load_u64_le xs p ≡ number xs / 2 ^ (8 * p) % 2 ^ 64
unfolding load_u64_le
word_at xs p h =
    number-take 8 (drop p xs) (All-drop IsByte p xs h)
    ∙ ap (λ (t : ℕ). t % 2 ^ 64) (number-drop p xs h)

pub byte_at :
    (xs : List ℕ) (p : ℕ) → All IsByte xs → get_or xs p 0 ≡ number xs / 2 ^ (8 * p) % 2 ^ 8
unfolding from_le_bytes
byte_at [] p h = sym (ap (λ (t : ℕ). t % 256) (zero-div (2 ^ (8 * p))))
byte_at (x ∷ xs) zero (b, h) = omega arith
byte_at (x ∷ xs) (suc p) (b, h) =
    byte_at xs p h ∙ sym (ap (λ (t : ℕ). t % 256) (shift_byte x (number xs) p b))

-- `(y % 2^n) << b` in 64 bits keeps the bits that stay below the top.
pub shl_window :
    (y b n k : ℕ) → b ≤ 63 → k ≡ 64 - b → k ≤ n → shl64 (y % 2 ^ n) b ≡ y % 2 ^ k * 2 ^ b
shl_window y b n k h e g =
    let z = y % 2 ^ n in
    let small : b % 64 ≡ b = omega arith in
    let total : 64 ≡ k + b = omega arith in
    let top : 2 ^ 64 ≡ 2 ^ k * 2 ^ b = ap (λ (t : ℕ). 2 ^ t) total ∙ two_pow_add k b in
    ap (λ (t : ℕ). z * 2 ^ t % 2 ^ 64) small
    ∙ ap (λ (t : ℕ). z * 2 ^ b % t) top
    ∙ mul-mod-mul z (2 ^ k) (2 ^ b) (two_pow_pos b)
    ∙ ap (λ (t : ℕ). t * 2 ^ b) (mod-mod_two_pow y n k g)

pub number-lt_end :
    (input : List ℕ) (k : ℕ) → All IsByte input → 8 * length input ≤ k → number input / 2 ^ k ≡ 0
number-lt_end input k hb h =
    div-eq_of_lt (le_trans (from_le_bytes-lt input hb) (two_pow_mono (8 * length input) k h))
