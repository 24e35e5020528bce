-- ===== src/Prelude/Bits/Xor.antt =====
-- `^` on words of any width: the group laws, and the shifts and masks it commutes with.
use Prim.Native.Nat.{
  ℕ, zero, suc, ◌+◌, ◌*◌, ◌/◌, ◌%◌, ◌^◌, ◌≤◌, ◌<◌, bit_xor, differ, bit_xor-bitwise,
}
use mathlib.Core.Path.{◌≡◌, refl, ap, ◌∙◌, sym}
use native.Mathlib.Nat.{pow-suc}
use native.Mathlib.Omega.{arith}
use zenflate.Prelude.Arith.{mod_half, div_half}
use zenflate.Prelude.Bits.Step.{lowest}
use zenflate.Prelude.Bits.{mul-two_pow_suc}

differ-sum : (x y : ℕ) → x < 2 → y < 2 → differ x y ≡ (x + y) % 2
differ-sum zero zero h k = refl
differ-sum zero (suc zero) h k = refl
differ-sum (suc zero) zero h k = refl
differ-sum (suc zero) (suc zero) h k = refl
differ-sum (suc (suc x)) y h k = absurd (omega arith)
differ-sum zero (suc (suc y)) h k = absurd (omega arith)
differ-sum (suc zero) (suc (suc y)) h k = absurd (omega arith)

zero-bit_xor : (y : ℕ) → bit_xor 0 y ≡ y
zero-bit_xor y = bit_xor-bitwise 0 y

pub bit_xor_step : (x y : ℕ) → bit_xor x y ≡ bit_xor (x / 2) (y / 2) * 2 + (x % 2 + y % 2) % 2
bit_xor_step zero y = omega (arith, zero-bit_xor y, zero-bit_xor (y / 2))
bit_xor_step (suc x) y =
    bit_xor-bitwise (suc x) y
    ∙ lowest (λ t. t) differ x y
    ∙ ap (λ (t : ℕ). t * 2 + differ (suc x % 2) (y % 2)) (sym (bit_xor-bitwise (suc x / 2) (y / 2)))
    ∙ ap (λ (t : ℕ). bit_xor (suc x / 2) (y / 2) * 2 + t)
        (differ-sum (suc x % 2) (y % 2) (omega arith) (omega arith))

-- The upper digits, and the lowest.
pub bit_xor-half : (x y : ℕ) → bit_xor x y / 2 ≡ bit_xor (x / 2) (y / 2)
bit_xor-half x y = omega (arith, bit_xor_step x y)

pub bit_xor-parity : (x y : ℕ) → bit_xor x y % 2 ≡ (x + y) % 2
bit_xor-parity x y = omega (arith, bit_xor_step x y)

self_below : (n x : ℕ) → x ≤ n → bit_xor x x ≡ 0
self_below n zero h = refl
self_below zero (suc x) h = absurd (omega arith)
self_below (suc n) (suc x) h =
    omega (arith, bit_xor_step (suc x) (suc x), self_below n (suc x / 2) (omega arith))

pub bit_xor_self : (x : ℕ) → bit_xor x x ≡ 0
bit_xor_self x = self_below x x (omega arith)

zero_below : (n x : ℕ) → x ≤ n → bit_xor x 0 ≡ x
zero_below n zero h = refl
zero_below zero (suc x) h = absurd (omega arith)
zero_below (suc n) (suc x) h =
    omega (arith, bit_xor_step (suc x) 0, zero_below n (suc x / 2) (omega arith))

pub bit_xor-zero : (x : ℕ) → bit_xor x 0 ≡ x
bit_xor-zero x = zero_below x x (omega arith)

comm_below : (n x y : ℕ) → x ≤ n → y ≤ n → bit_xor x y ≡ bit_xor y x
comm_below zero zero zero h k = refl
comm_below zero (suc x) y h k = absurd (omega arith)
comm_below zero zero (suc y) h k = absurd (omega arith)
comm_below (suc n) x y h k = omega (
  arith,
  bit_xor_step x y,
  bit_xor_step y x,
  comm_below n (x / 2) (y / 2) (omega arith) (omega arith),
)

pub bit_xor_comm : (x y : ℕ) → bit_xor x y ≡ bit_xor y x
bit_xor_comm x y = comm_below (x + y) x y (omega arith) (omega arith)

assoc_below :
    (n x y z : ℕ) → x ≤ n → y ≤ n → z ≤ n → bit_xor (bit_xor x y) z ≡ bit_xor x (bit_xor y z)
assoc_below zero zero y z h k l =
    ap (λ t. bit_xor t z) (zero-bit_xor y) ∙ sym (zero-bit_xor (bit_xor y z))
assoc_below zero (suc x) y z h k l = absurd (omega arith)
assoc_below (suc n) x y z h k l = omega (
  arith,
  bit_xor_step (bit_xor x y) z,
  bit_xor_step x (bit_xor y z),
  bit_xor-parity x y,
  bit_xor-parity y z,
  ap (λ t. bit_xor t (z / 2)) (bit_xor-half x y),
  ap (bit_xor (x / 2)) (bit_xor-half y z),
  assoc_below n (x / 2) (y / 2) (z / 2) (omega arith) (omega arith) (omega arith),
)

pub bit_xor_assoc : (x y z : ℕ) → bit_xor (bit_xor x y) z ≡ bit_xor x (bit_xor y z)
bit_xor_assoc x y z = assoc_below (x + y + z) x y z (omega arith) (omega arith) (omega arith)

-- No bit stands above both.
pub bit_xor-lt : (k x y : ℕ) → x < 2 ^ k → y < 2 ^ k → bit_xor x y < 2 ^ k
bit_xor-lt zero x y h g =
    let a : x ≡ 0 = omega arith in let b : y ≡ 0 = omega arith in rw (a, b) (omega arith)
bit_xor-lt (suc k) x y h g =
    let p = pow-suc 2 k in
    omega (
      arith,
      p,
      bit_xor_step x y,
      bit_xor-lt k (x / 2) (y / 2) (omega (arith, p)) (omega (arith, p)),
    )

-- Numbers that share no bit.
pub bit_xor_disjoint : (k r q : ℕ) → r < 2 ^ k → bit_xor r (q * 2 ^ k) ≡ r + q * 2 ^ k
bit_xor_disjoint zero r q h =
    let a : r ≡ 0 = omega arith in
    ap (λ t. bit_xor t (q * 2 ^ 0)) a ∙ zero-bit_xor (q * 2 ^ 0) ∙ omega arith
bit_xor_disjoint (suc k) r q h =
    let p = pow-suc 2 k in
    let m = mul-two_pow_suc q k in
    let e : q * 2 ^ suc k / 2 ≡ q * 2 ^ k = omega (arith, m) in
    omega (
      arith,
      m,
      p,
      bit_xor_step r (q * 2 ^ suc k),
      ap (bit_xor (r / 2)) e,
      bit_xor_disjoint k (r / 2) q (omega (arith, p)),
    )

pub bit_xor-div : (k x y : ℕ) → bit_xor x y / 2 ^ k ≡ bit_xor (x / 2 ^ k) (y / 2 ^ k)
bit_xor-div zero x y =
    let one : (t : ℕ) → t / 2 ^ 0 ≡ t = λ t. omega arith in
    one (bit_xor x y) ∙ ap (λ t. bit_xor t y) (sym (one x)) ∙ ap (bit_xor (x / 2 ^ 0)) (sym (one y))
bit_xor-div (suc k) x y =
    div_half (bit_xor x y) k
    ∙ ap (λ (t : ℕ). t / 2 ^ k) (bit_xor-half x y)
    ∙ bit_xor-div k (x / 2) (y / 2)
    ∙ ap (λ t. bit_xor t (y / 2 / 2 ^ k)) (sym (div_half x k))
    ∙ ap (bit_xor (x / 2 ^ suc k)) (sym (div_half y k))

pub bit_xor-mod : (k x y : ℕ) → bit_xor x y % 2 ^ k ≡ bit_xor (x % 2 ^ k) (y % 2 ^ k)
bit_xor-mod zero x y =
    let none_left : (t : ℕ) → t % 2 ^ 0 ≡ 0 = λ t. omega arith in
    none_left (bit_xor x y)
    ∙ sym (ap (λ t. bit_xor t (y % 2 ^ 0)) (none_left x) ∙ zero-bit_xor (y % 2 ^ 0) ∙ none_left y)
bit_xor-mod (suc k) x y =
    let ex : x % 2 ^ suc k / 2 ≡ x / 2 % 2 ^ k = omega (arith, mod_half x k) in
    let ey : y % 2 ^ suc k / 2 ≡ y / 2 % 2 ^ k = omega (arith, mod_half y k) in
    let a : bit_xor (x / 2) (y / 2) % 2 ^ k ≡ bit_xor (x % 2 ^ suc k / 2) (y % 2 ^ suc k / 2) =
      bit_xor-mod k (x / 2) (y / 2)
      ∙ ap (λ t. bit_xor t (y / 2 % 2 ^ k)) (sym ex)
      ∙ ap (bit_xor (x % 2 ^ suc k / 2)) (sym ey) in
    omega (
      arith,
      mod_half (bit_xor x y) k,
      bit_xor-parity x y,
      ap (λ (t : ℕ). t % 2 ^ k) (bit_xor-half x y),
      a,
      bit_xor_step (x % 2 ^ suc k) (y % 2 ^ suc k),
      mod_half x k,
      mod_half y k,
    )

-- Four terms, two by two.
pub bit_xor_exchange :
    (a b c d : ℕ) → bit_xor (bit_xor a b) (bit_xor c d) ≡ bit_xor (bit_xor a c) (bit_xor b d)
bit_xor_exchange a b c d =
    bit_xor_assoc a b (bit_xor c d)
    ∙ ap (bit_xor a)
        (sym (bit_xor_assoc b c d) ∙ ap (λ t. bit_xor t d) (bit_xor_comm b c) ∙ bit_xor_assoc c b d)
    ∙ sym (bit_xor_assoc a c (bit_xor b d))
