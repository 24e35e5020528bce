-- ===== src/MatchFinder/Zeros.antt =====
-- The first byte in which two words differ, as src/matchfinder/mod.rs finds it.
use zenflate.Prelude.{
  ℕ, zero, suc, ◌+◌, ◌*◌, ◌/◌, ◌%◌, ◌^◌, ◌<◌, ◌≢◌, bit_xor, List, [], ◌∷◌, length, All, ◌==◌,
  if◌then◌else◌, arith, ◌≡◌, refl, sym, ap, ◌∙◌, inl, inr, Bool-cases, ==_iff,
}
use zenflate.Prelude.Arith.{two_pow_suc}
use zenflate.Prelude.Bits.Xor.{
  bit_xor_self, bit_xor_comm, bit_xor-zero, bit_xor-mod, bit_xor-div, bit_xor-lt, bit_xor_assoc,
}
use zenflate.Prelude.Words.{IsByte, from_le_bytes}
use zenflate.MatchFinder.{trailing_zeros}

-- How long two lists agree.
abbrev pub common : List ℕ → List ℕ → ℕ
common [] ys = 0
common (x ∷ xs) [] = 0
common (x ∷ xs) (y ∷ ys) = if x == y then suc (common xs ys) else 0

trailing_zeros-shift : (k n z : ℕ) → trailing_zeros (k + n) (z * 2 ^ k) ≡ k + trailing_zeros n z
unfolding trailing_zeros
trailing_zeros-shift zero n z =
    let e : 0 + n ≡ n = omega arith in
    let f : z * 2 ^ 0 ≡ z = omega arith in
    ap (λ (t : ℕ). trailing_zeros t (z * 2 ^ 0)) e ∙ ap (trailing_zeros n) f ∙ omega arith
trailing_zeros-shift (suc k) n z =
    let e : suc k + n ≡ suc (k + n) = omega arith in
    let p = ap (λ (t : ℕ). z * t) (two_pow_suc k) in
    let even : z * 2 ^ suc k % 2 ≡ 0 = omega (arith, p) in
    let half : z * 2 ^ suc k / 2 ≡ z * 2 ^ k = omega (arith, p) in
    ap (λ (t : ℕ). trailing_zeros t (z * 2 ^ suc k)) e
    ∙ rw ((==_iff (z * 2 ^ suc k % 2) 0).1 even, half)
        (ap suc (trailing_zeros-shift k n z) ∙ omega arith)

trailing_zeros-below :
    (k n w z : ℕ) → 0 < w → w < 2 ^ k → trailing_zeros (k + n) (w + z * 2 ^ k) < k
unfolding trailing_zeros
trailing_zeros-below zero n w z pos h = absurd (omega (arith, pos, h))
trailing_zeros-below (suc k) n w z pos h =
    let e : suc k + n ≡ suc (k + n) = omega arith in
    let p = ap (λ (t : ℕ). z * t) (two_pow_suc k) in
    let q = two_pow_suc k in
    let v = w + z * 2 ^ suc k in
    let half : v / 2 ≡ w / 2 + z * 2 ^ k = omega (arith, p) in
    let parity : v % 2 ≡ w % 2 = omega (arith, p) in
    let back = ap (λ (t : ℕ). trailing_zeros t v) e in
    elim (Bool-cases (w % 2 == 0)) [
      | inl a ↦
          let even : w % 2 ≡ 0 = (==_iff (w % 2) 0).0 a in
          let rest =
            trailing_zeros-below k n (w / 2) z (omega (arith, pos, even)) (omega (arith, h, q)) in
          rw (back, (==_iff (v % 2) 0).1 (parity ∙ even), half) (omega (arith, rest))
      | inr a ↦ rw (back, parity, a) (omega arith)
    ]

-- Two words whose low bytes are `a` and `b`.
xor-digit :
    (a b x y : ℕ)
    → a < 256
    → b < 256
    → bit_xor (a + 256 * x) (b + 256 * y) ≡ bit_xor a b + bit_xor x y * 2 ^ 8
xor-digit a b x y ha hb =
    let u = a + 256 * x in
    let v = b + 256 * y in
    let ua : u % 2 ^ 8 ≡ a = omega (arith, ha) in
    let va : v % 2 ^ 8 ≡ b = omega (arith, hb) in
    let ux : u / 2 ^ 8 ≡ x = omega (arith, ha) in
    let vy : v / 2 ^ 8 ≡ y = omega (arith, hb) in
    let low = bit_xor-mod 8 u v ∙ ap (λ (t : ℕ). bit_xor t (v % 2 ^ 8)) ua ∙ ap (bit_xor a) va in
    let high = bit_xor-div 8 u v ∙ ap (λ (t : ℕ). bit_xor t (v / 2 ^ 8)) ux ∙ ap (bit_xor x) vy in
    omega (arith, low, high)

xor-ne : (a b : ℕ) → a ≢ b → 0 < bit_xor a b
xor-ne a b ne = elim (Bool-cases (bit_xor a b == 0)) [
  | inl h ↦
      let z : bit_xor a b ≡ 0 = (==_iff (bit_xor a b) 0).0 h in
      absurd (
        ne (
          sym (bit_xor-zero a)
          ∙ ap (bit_xor a) (sym (bit_xor_self b))
          ∙ sym (bit_xor_assoc a b b)
          ∙ ap (λ (t : ℕ). bit_xor t b) z
          ∙ bit_xor_comm 0 b
          ∙ bit_xor-zero b))
  | inr h ↦ ground (arith, h)
]

-- The trailing zero bits of the difference of two words of `n` bytes, in bytes, are the bytes that
-- agree.
pub trailing_zeros-common :
    (xs ys : List ℕ)
    → length xs ≡ length ys
    → All IsByte xs
    → All IsByte ys
    → trailing_zeros (8 * length xs) (bit_xor (from_le_bytes xs) (from_le_bytes ys)) / 8
      ≡ common xs ys
unfolding from_le_bytes trailing_zeros
trailing_zeros-common [] [] e hx hy = refl
trailing_zeros-common [] (y ∷ ys) e hx hy = absurd (omega (arith, e))
trailing_zeros-common (x ∷ xs) [] e hx hy = absurd (omega (arith, e))
trailing_zeros-common (x ∷ xs) (y ∷ ys) e (px, hx) (py, hy) =
    let n = 8 * length xs in
    let size : 8 * length (x ∷ xs) ≡ 8 + n = omega arith in
    let w = bit_xor x y in
    let z = bit_xor (from_le_bytes xs) (from_le_bytes ys) in
    let digit = xor-digit x y (from_le_bytes xs) (from_le_bytes ys) px py in
    let head =
      ap
        (λ (t : ℕ).
          trailing_zeros t (bit_xor (x + 256 * from_le_bytes xs) (y + 256 * from_le_bytes ys)) / 8)
        size
      ∙ ap (λ (t : ℕ). trailing_zeros (8 + n) t / 8) digit in
    head ∙ elim (Bool-cases (x == y)) [
      | inl a ↦
          let same : x ≡ y = (==_iff x y).0 a in
          let none : w + z * 2 ^ 8 ≡ z * 2 ^ 8 =
            omega (arith, ap (λ (t : ℕ). bit_xor t y) same, bit_xor_self y) in
          rw a (
            ap (λ (t : ℕ). trailing_zeros (8 + n) t / 8) none
            ∙ omega (
              arith,
              trailing_zeros-shift 8 n z,
              trailing_zeros-common xs ys (omega (arith, e)) hx hy,
            ))
      | inr a ↦
          let below =
            trailing_zeros-below 8 n w z (xor-ne x y (ground (arith, a)))
              (bit_xor-lt 8 x y px py) in
          rw a (omega (arith, below))
    ]
