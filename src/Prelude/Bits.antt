-- ===== src/Prelude/Bits.antt =====
-- `|`, `&` and `^` on words as arithmetic. The tactics take such a call for an unknown.
pub mod Step
pub mod Window
pub mod Xor
pub use Step.{bit_or_step, bit_and_step}
use mathlib.Core.Path.{◌≡◌, refl, ap, ◌∙◌}
use mathlib.Core.WellFounded.{Acc, WellFounded, induction}
use native.Mathlib.Nat.{pow-suc, one-le-pow}
use native.Mathlib.Omega.{arith}
use Prim.Native.Nat.{ℕ, zero, suc, ◌+◌, ◌-◌, ◌*◌, ◌/◌, ◌%◌, ◌^◌, ◌≤◌, ◌<◌, bit_and, bit_or}
use Prim.Native.Nat.{bit_or-bitwise}
use mathlib.Core.Bool.{Bool, true, false, ◌&&◌}
use zenflate.Prelude.Arith.{mod_half}
use zenflate.Prelude.Tests.{◌==◌}

or_nothing : (n a : ℕ) → a ≤ n → bit_or a 0 ≡ a
or_nothing n zero h = refl
or_nothing zero (suc a) h = absurd (omega arith)
or_nothing (suc n) (suc a) h =
    omega (arith, bit_or_step (suc a) 0, or_nothing n (suc a / 2) (omega arith))

pub bit_or-zero : (a : ℕ) → bit_or a 0 ≡ a
bit_or-zero a = or_nothing a a (omega arith)

and_nothing : (n a : ℕ) → a ≤ n → bit_and a 0 ≡ 0
and_nothing n zero h = refl
and_nothing zero (suc a) h = absurd (omega arith)
and_nothing (suc n) (suc a) h =
    omega (arith, bit_and_step (suc a) 0, and_nothing n (suc a / 2) (omega arith))

bit_and-zero : (a : ℕ) → bit_and a 0 ≡ 0
bit_and-zero a = and_nothing a a (omega arith)

pub mul-two_pow_suc : (q k : ℕ) → q * 2 ^ suc k ≡ 2 * (q * 2 ^ k)
mul-two_pow_suc q k = omega (arith, ap (λ (t : ℕ). q * t) (pow-suc 2 k))

-- A word below 2 ^ k and a word shifted by k share no bit: their `|` is their sum.
pub bit_or_disjoint : (k r q : ℕ) → r < 2 ^ k → bit_or r (q * 2 ^ k) ≡ r + q * 2 ^ k
bit_or_disjoint zero r q fits = ground (arith, bit_or-bitwise 0 (q * 1))
bit_or_disjoint (suc k) r q fits = ground (
  arith,
  bit_or_step r (q * 2 ^ suc k),
  mul-two_pow_suc q k,
  bit_or_disjoint k (r / 2) q (omega (arith, pow-suc 2 k)),
)

low_ones : (k a m : ℕ) → m + 1 ≡ 2 ^ k → bit_and a m ≡ a % 2 ^ k
low_ones zero a m e = let z : m ≡ 0 = omega arith in ap (bit_and a) z ∙ bit_and-zero a ∙ omega arith
low_ones (suc k) a m e =
    let p = pow-suc 2 k in
    omega (
      arith,
      bit_and_step a m,
      low_ones k (a / 2) (m / 2) (omega (arith, p)),
      mod_half a k,
      p,
      one-le-pow k 2,
    )

-- A mask of k ones keeps the remainder by 2 ^ k.
pub bit_and_mask : (k a : ℕ) → bit_and a (2 ^ k - 1) ≡ a % 2 ^ k
bit_and_mask k a = low_ones k a (2 ^ k - 1) (omega (arith, one-le-pow k 2))

-- Over a small range, check every value by evaluation.
module _ (f g : ℕ → ℕ) where
  unfoldable pub agree_below : ℕ → Bool
  agree_below zero = true
  agree_below (suc n) = f n == g n && agree_below n

  pub agree_below→eq : (n : ℕ) → agree_below n ≡ true → (i : ℕ) → i < n → f i ≡ g i
  unfolding agree_below
  agree_below→eq zero e i h = absurd (omega arith)
  agree_below→eq (suc n) e i h = ground (arith, agree_below→eq n (ground arith) i)

-- `c & !7` and `c & 7` on a bit count.
pub bit_and_not_seven : (c : ℕ) → c < 64 → bit_and c 0xfffffff8 ≡ c / 8 * 8
unfolding agree_below
bit_and_not_seven = agree_below→eq _ _ 64 refl

pub bit_and_seven : (c : ℕ) → bit_and c 7 ≡ c % 8
bit_and_seven c = bit_and_mask 3 c
