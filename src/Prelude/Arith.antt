-- ===== src/Prelude/Arith.antt =====
-- Facts about products, powers of two and remainders that the components share.
use Prim.Native.Nat.{ℕ, zero, suc, ◌+◌, ◌-◌, ◌*◌, ◌/◌, ◌%◌, ◌^◌, ◌≤◌, ◌<◌}
use mathlib.Core.Path.{◌≡◌, ap, ◌∙◌, sym}
use native.Mathlib.Nat.{
  pow-suc, one-le-pow, pow-le-pow_right, mod_def, div-add-mod, div-div-eq-div-mul,
}
use native.Mathlib.Nat.{mul-div-mul_right, add-mul-mod_self_left, div-eq_of_lt, add-mul-div_left}
use native.Mathlib.Omega.{arith}

pub mul_mono : (a b c d : ℕ) → a ≤ c → b ≤ d → a * b ≤ c * d
mul_mono a b c d h k = grind arith

pub suc_mul : (n x : ℕ) → suc n * x ≡ n * x + x
suc_mul n x = omega arith

pub mul_add : (n x y : ℕ) → n * (x + y) ≡ n * x + n * y
mul_add n x y = omega arith

pub two_pow_suc : (k : ℕ) → 2 ^ suc k ≡ 2 * 2 ^ k
two_pow_suc k = omega (arith, pow-suc 2 k)

pub two_pow_pos : (k : ℕ) → 0 < 2 ^ k
two_pow_pos k = one-le-pow k 2 (omega arith)

zero_add : (n : ℕ) → 0 + n ≡ n
zero_add n = omega arith

suc_add : (m n : ℕ) → suc m + n ≡ suc (m + n)
suc_add m n = omega arith

pub two_pow_add : (a b : ℕ) → 2 ^ (a + b) ≡ 2 ^ a * 2 ^ b
two_pow_add zero b = ap (λ (t : ℕ). 2 ^ t) (zero_add b) ∙ omega arith
two_pow_add (suc a) b =
    ap (λ (t : ℕ). 2 ^ t) (suc_add a b)
    ∙ two_pow_suc (a + b)
    ∙ omega (arith, two_pow_add a b, ap (λ (t : ℕ). t * 2 ^ b) (two_pow_suc a))

pub two_pow_mono : (a b : ℕ) → a ≤ b → 2 ^ a ≤ 2 ^ b
two_pow_mono a b h = pow-le-pow_right (omega arith) h

-- Shifting right and putting the low bits back.
pub div_mod_two_pow : (x k : ℕ) → x ≡ x / 2 ^ k * 2 ^ k + x % 2 ^ k
div_mod_two_pow x k = let p = two_pow_pos k in grind arith

pub mod_two_pow-lt : (x k : ℕ) → x % 2 ^ k < 2 ^ k
mod_two_pow-lt x k = let p = two_pow_pos k in omega arith

pub div_two_pow-lt : (x a b : ℕ) → x < 2 ^ (a + b) → x / 2 ^ a < 2 ^ b
div_two_pow-lt x a b h =
    let p = two_pow_pos a in let q = div_mod_two_pow x a in grind (arith, two_pow_add a b)

pub two_pow_byte : (k : ℕ) → 2 ^ (8 * suc k) ≡ 256 * 2 ^ (8 * k)
two_pow_byte k = ap (λ (t : ℕ). 2 ^ t) (eight k) ∙ two_pow_add 8 (8 * k)
  where
    eight : (n : ℕ) → 8 * suc n ≡ 8 + 8 * n
    eight n = omega arith

-- A remainder by 256 * m, from the low byte up.
pub mod_byte : (x m : ℕ) → 0 < m → x % (256 * m) ≡ x % 256 + 256 * (x / 256 % m)
mod_byte x m h = omega (
  arith,
  mod_def x (256 * m),
  div-add-mod (x / 256) m,
  div-add-mod x 256,
  ap (λ (t : ℕ). 256 * m * t) (div-div-eq-div-mul x 256 m),
)

pub mul-mod-mul : (z k b : ℕ) → 0 < b → z * b % (k * b) ≡ z % k * b
mul-mod-mul z k b h = omega (
  arith,
  mod_def (z * b) (k * b),
  div-add-mod z k,
  ap (λ (t : ℕ). k * b * t) (mul-div-mul_right z k h),
  ap (λ (t : ℕ). t * b) (div-add-mod z k),
)

pub mod-mod-mul : (y k j : ℕ) → y % (k * j) % k ≡ y % k
mod-mod-mul y k j =
    let e : y ≡ y % (k * j) + k * (j * (y / (k * j))) = omega (arith, div-add-mod y (k * j)) in
    sym (add-mul-mod_self_left (y % (k * j)) k (j * (y / (k * j)))) ∙ ap (λ (t : ℕ). t % k) (sym e)

pub mod-mod_two_pow : (y n k : ℕ) → k ≤ n → y % 2 ^ n % 2 ^ k ≡ y % 2 ^ k
mod-mod_two_pow y n k h =
    let e : n ≡ k + (n - k) = omega arith in
    ap (λ (t : ℕ). y % t % 2 ^ k) (ap (λ (t : ℕ). 2 ^ t) e ∙ two_pow_add k (n - k))
    ∙ mod-mod-mul y (2 ^ k) (2 ^ (n - k))

-- Shifting by `c + b` bits is shifting by `c` and then by `b`.
pub div_add : (x c b : ℕ) → x / 2 ^ (c + b) ≡ x / 2 ^ c / 2 ^ b
div_add x c b = ap (λ (t : ℕ). x / t) (two_pow_add c b) ∙ sym (div-div-eq-div-mul x (2 ^ c) (2 ^ b))

pub mod-mul_digits : (x a m : ℕ) → x % (a * m) ≡ x % a + a * (x / a % m)
mod-mul_digits x a m = omega (
  arith,
  mod_def x (a * m),
  div-add-mod x a,
  div-add-mod (x / a) m,
  ap (λ (t : ℕ). a * m * t) (div-div-eq-div-mul x a m),
  ap (λ (t : ℕ). a * t) (div-add-mod (x / a) m),
)

-- A window of `n` bits, `j` bits further on.
pub div_window : (x n j : ℕ) → j ≤ n → x % 2 ^ n / 2 ^ j ≡ x / 2 ^ j % 2 ^ (n - j)
div_window x n j h =
    let e : n ≡ j + (n - j) = omega arith in
    let low : x % 2 ^ j / 2 ^ j ≡ 0 = div-eq_of_lt (mod_two_pow-lt x j) in
    ap (λ (t : ℕ). x % t / 2 ^ j) (ap (λ (t : ℕ). 2 ^ t) e ∙ two_pow_add j (n - j))
    ∙ ap (λ (t : ℕ). t / 2 ^ j) (mod-mul_digits x (2 ^ j) (2 ^ (n - j)))
    ∙ add-mul-div_left (x % 2 ^ j) (x / 2 ^ j % 2 ^ (n - j)) (two_pow_pos j)
    ∙ omega arith

mod_two : (x m : ℕ) → 0 < m → x % (2 * m) ≡ x % 2 + 2 * (x / 2 % m)
mod_two x m h = omega (
  arith,
  mod_def x (2 * m),
  div-add-mod (x / 2) m,
  div-add-mod x 2,
  ap (λ (t : ℕ). 2 * m * t) (div-div-eq-div-mul x 2 m),
)

-- One bit less of a window, from the low end.
pub mod_half : (x k : ℕ) → x % 2 ^ suc k ≡ x % 2 + 2 * (x / 2 % 2 ^ k)
mod_half x k = ap (λ (t : ℕ). x % t) (two_pow_suc k) ∙ mod_two x (2 ^ k) (two_pow_pos k)

pub div_half : (x k : ℕ) → x / 2 ^ suc k ≡ x / 2 / 2 ^ k
div_half x k = ap (λ (t : ℕ). x / t) (two_pow_suc k) ∙ sym (div-div-eq-div-mul x 2 (2 ^ k))
