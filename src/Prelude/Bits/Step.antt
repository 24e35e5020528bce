-- ===== src/Prelude/Bits/Step.antt =====
-- `|` and `&` one binary digit at a time. Rounds of the native recursion beyond the first number's
-- size change nothing.
use Prim.Native.Nat.{ℕ, zero, suc, ◌+◌, ◌-◌, ◌*◌, ◌/◌, ◌%◌, ◌≤◌, min, max, bit_and, bit_or}
use Prim.Native.Nat.{digits, bit_and-bitwise, bit_or-bitwise}
use mathlib.Core.Path.{◌≡◌, refl, ap, ◌∙◌, sym}
use native.Mathlib.Omega.{arith}

module _ (rest : ℕ → ℕ) (digit : ℕ → ℕ → ℕ) where
  one_more :
      (rounds x y : ℕ)
      → x ≤ rounds
      → digits rest digit (suc rounds) x y ≡ digits rest digit rounds x y
  one_more zero zero y h = refl
  one_more (suc rounds) zero y h = refl
  one_more zero (suc x) y h = absurd (omega arith)
  one_more (suc rounds) (suc x) y h =
      ap (λ (t : ℕ). t * 2 + digit (suc x % 2) (y % 2))
        (one_more rounds (suc x / 2) (y / 2) (omega arith))

  more :
      (k rounds x y : ℕ)
      → x ≤ rounds
      → digits rest digit (k + rounds) x y ≡ digits rest digit rounds x y
  more zero rounds x y h =
      let e : 0 + rounds ≡ rounds = omega arith in ap (λ (t : ℕ). digits rest digit t x y) e
  more (suc k) rounds x y h =
      let e : suc k + rounds ≡ suc (k + rounds) = omega arith in
      ap (λ (t : ℕ). digits rest digit t x y) e
      ∙ one_more (k + rounds) x y (omega arith)
      ∙ more k rounds x y h

  pub lowest :
      (x y : ℕ)
      → digits rest digit (suc x) (suc x) y
        ≡ digits rest digit (suc x / 2) (suc x / 2) (y / 2) * 2 + digit (suc x % 2) (y % 2)
  lowest x y =
      let half = suc x / 2 in
      let e : x ≡ x - half + half = omega arith in
      ap (λ (t : ℕ). t * 2 + digit (suc x % 2) (y % 2))
        (ap (λ (t : ℕ). digits rest digit t half (y / 2)) e
          ∙ more (x - half) half half (y / 2) (omega arith))

pub bit_or_step : (x y : ℕ) → bit_or x y ≡ bit_or (x / 2) (y / 2) * 2 + max (x % 2) (y % 2)
bit_or_step zero y = omega (arith, bit_or-bitwise 0 y, bit_or-bitwise 0 (y / 2))
bit_or_step (suc x) y =
    bit_or-bitwise (suc x) y
    ∙ lowest (λ t. t) max x y
    ∙ ap (λ (t : ℕ). t * 2 + max (suc x % 2) (y % 2)) (sym (bit_or-bitwise (suc x / 2) (y / 2)))

pub bit_and_step : (x y : ℕ) → bit_and x y ≡ bit_and (x / 2) (y / 2) * 2 + min (x % 2) (y % 2)
bit_and_step zero y = omega (arith, bit_and-bitwise 0 y, bit_and-bitwise 0 (y / 2))
bit_and_step (suc x) y =
    bit_and-bitwise (suc x) y
    ∙ lowest (λ t. 0) min x y
    ∙ ap (λ (t : ℕ). t * 2 + min (suc x % 2) (y % 2)) (sym (bit_and-bitwise (suc x / 2) (y / 2)))
