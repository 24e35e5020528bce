-- ===== src/Prelude/Bits/Window.antt =====
-- `|` of two windows on the bits of one number: what both hold agrees, so the union is a window.
use Prim.Native.Nat.{ℕ, zero, suc, ◌+◌, ◌*◌, ◌/◌, ◌%◌, ◌^◌, ◌≤◌, max, bit_or}
use Prim.Native.Nat.{bit_or-bitwise}
use mathlib.Core.Path.{◌≡◌, ap, ◌∙◌}
use native.Mathlib.Omega.{arith}
use zenflate.Prelude.Arith.{mod_half, div_half}
use zenflate.Prelude.Bits.{bit_or_step, bit_or-zero, mul-two_pow_suc}

zero-bit_or : (n : ℕ) → bit_or 0 n ≡ n
zero-bit_or n = bit_or-bitwise 0 n

same_start : (m k j x : ℕ) → j ≡ max m k → bit_or (x % 2 ^ m) (x % 2 ^ k) ≡ x % 2 ^ j
same_start zero k j x e =
    let j-eq : j ≡ k = omega arith in
    let z : x % 2 ^ 0 ≡ 0 = omega arith in rw (j-eq, z) (zero-bit_or (x % 2 ^ k))
same_start (suc m) zero j x e =
    let j-eq : j ≡ suc m = omega arith in
    let z : x % 2 ^ 0 ≡ 0 = omega arith in rw (j-eq, z) (bit_or-zero (x % 2 ^ suc m))
same_start (suc m) (suc k) zero x e = absurd (omega arith)
same_start (suc m) (suc k) (suc j) x e =
    let a = x % 2 ^ suc m in
    let b = x % 2 ^ suc k in
    let ea : a / 2 ≡ x / 2 % 2 ^ m = omega (arith, mod_half x m) in
    let eb : b / 2 ≡ x / 2 % 2 ^ k = omega (arith, mod_half x k) in
    let both : bit_or (a / 2) (b / 2) ≡ x / 2 % 2 ^ j =
      rw (ea, eb) (same_start m k j (x / 2) (omega arith)) in
    omega (arith, bit_or_step a b, both, mod_half x m, mod_half x k, mod_half x j)

-- The bits below `m` of `x`, with its bits from `b` to `b + k`, where the two windows meet.
pub bit_or_window :
    (b m k j x : ℕ)
    → b ≤ m
    → j ≡ max m (b + k)
    → bit_or (x % 2 ^ m) (x / 2 ^ b % 2 ^ k * 2 ^ b) ≡ x % 2 ^ j
bit_or_window zero m k j x h e =
    let one : x / 2 ^ 0 % 2 ^ k * 2 ^ 0 ≡ x % 2 ^ k =
      omega (arith, ap (λ (t : ℕ). t % 2 ^ k) (whole x)) in
    rw one (same_start m k j x (omega arith))
  where
    whole : (y : ℕ) → y / 1 ≡ y
    whole y = omega arith
bit_or_window (suc b) zero k j x h e = absurd (omega arith)
bit_or_window (suc b) (suc m) k zero x h e = absurd (omega arith)
bit_or_window (suc b) (suc m) k (suc j) x h e =
    let a = x % 2 ^ suc m in
    let w = x / 2 / 2 ^ b % 2 ^ k * 2 ^ b in
    let c = x / 2 ^ suc b % 2 ^ k * 2 ^ suc b in
    let ea : a / 2 ≡ x / 2 % 2 ^ m = omega (arith, mod_half x m) in
    let ec : c ≡ 2 * w =
      ap (λ (t : ℕ). t % 2 ^ k * 2 ^ suc b) (div_half x b)
      ∙ mul-two_pow_suc (x / 2 / 2 ^ b % 2 ^ k) b in
    let ed : c / 2 ≡ w = omega arith in
    let both : bit_or (a / 2) (c / 2) ≡ x / 2 % 2 ^ j =
      rw (ea, ed) (bit_or_window b m k j (x / 2) (omega arith) (omega arith)) in
    omega (arith, bit_or_step a c, both, mod_half x m, mod_half x j)
