-- ===== src/Prelude/Words.antt =====
-- u32 and u64 words as native numbers: sums and differences wrap, and a shift is taken modulo the
-- width, as Rust's release arithmetic does. Little-endian bytes of a word.
use Prim.Native.Nat.{ℕ, zero, suc, ◌+◌, ◌-◌, ◌*◌, ◌/◌, ◌%◌, ◌^◌, ◌≤◌, ◌<◌}
use mathlib.Core.Path.{◌≡◌, refl, ap, ◌∙◌}
use mathlib.Core.List.{List, [], ◌∷◌, ◌++◌}
use native.Mathlib.Omega.{arith}
use zenflate.Prelude.Lists.{length, take, All}
use zenflate.Prelude.Arith.{
  two_pow_byte, mod_byte, two_pow_pos, two_pow_add, two_pow_mono, mul_mono,
}

abbrev pub add32 : ℕ → ℕ → ℕ
add32 a b = (a + b) % 2 ^ 32

abbrev pub sub32 : ℕ → ℕ → ℕ
sub32 a b = (a + 2 ^ 32 - b) % 2 ^ 32

abbrev pub mul32 : ℕ → ℕ → ℕ
mul32 a b = a * b % 2 ^ 32

abbrev pub add64 : ℕ → ℕ → ℕ
add64 a b = (a + b) % 2 ^ 64

abbrev pub sub64 : ℕ → ℕ → ℕ
sub64 a b = (a + 2 ^ 64 - b) % 2 ^ 64

abbrev pub mul64 : ℕ → ℕ → ℕ
mul64 a b = a * b % 2 ^ 64

abbrev pub shl32 : ℕ → ℕ → ℕ
shl32 x k = x * 2 ^ (k % 32) % 2 ^ 32

abbrev pub shl64 : ℕ → ℕ → ℕ
shl64 x k = x * 2 ^ (k % 64) % 2 ^ 64

abbrev pub shr64 : ℕ → ℕ → ℕ
shr64 x k = x / 2 ^ (k % 64)

abbrev pub IsByte : ℕ → Type 0
IsByte b = b < 256

-- `to_le_bytes` of a word of `n` bytes.
unfoldable pub to_le_bytes : ℕ → ℕ → List ℕ
to_le_bytes zero x = []
to_le_bytes (suc n) x = x % 256 ∷ to_le_bytes n (x / 256)

-- `from_le_bytes`
unfoldable pub from_le_bytes : List ℕ → ℕ
from_le_bytes [] = 0
from_le_bytes (b ∷ bs) = b + 256 * from_le_bytes bs

-- `to_be_bytes` and `from_be_bytes`.
unfoldable pub to_be_bytes : ℕ → ℕ → List ℕ
to_be_bytes zero x = []
to_be_bytes (suc n) x = x / 256 ^ n % 256 ∷ to_be_bytes n x

unfoldable pub from_be_bytes : ℕ → List ℕ → ℕ
from_be_bytes acc [] = acc
from_be_bytes acc (b ∷ bs) = from_be_bytes (acc * 256 + b) bs

pub length-to_le_bytes : (n x : ℕ) → length (to_le_bytes n x) ≡ n
unfolding to_le_bytes
length-to_le_bytes zero x = refl
length-to_le_bytes (suc n) x = ap suc (length-to_le_bytes n (x / 256))

pub to_le_bytes-IsByte : (n x : ℕ) → All IsByte (to_le_bytes n x)
unfolding to_le_bytes
to_le_bytes-IsByte zero x = tt
to_le_bytes-IsByte (suc n) x = (omega arith, to_le_bytes-IsByte n (x / 256))

pub take-to_le_bytes : (k n x : ℕ) → k ≤ n → take k (to_le_bytes n x) ≡ to_le_bytes k x
unfolding to_le_bytes
take-to_le_bytes zero n x h = refl
take-to_le_bytes (suc k) zero x h = absurd (omega arith)
take-to_le_bytes (suc k) (suc n) x h =
    ap (λ t. x % 256 ∷ t) (take-to_le_bytes k n (x / 256) (omega arith))

pub from_le_bytes-append :
    (xs ys : List ℕ)
    → from_le_bytes (xs ++ ys) ≡ from_le_bytes xs + from_le_bytes ys * 2 ^ (8 * length xs)
unfolding from_le_bytes
from_le_bytes-append [] ys = omega arith
from_le_bytes-append (x ∷ xs) ys = omega (
  arith,
  from_le_bytes-append xs ys,
  ap (λ (t : ℕ). from_le_bytes ys * t) (two_pow_byte (length xs)),
)

pub from_le_bytes-lt : (xs : List ℕ) → All IsByte xs → from_le_bytes xs < 2 ^ (8 * length xs)
unfolding from_le_bytes
from_le_bytes-lt [] h = omega arith
from_le_bytes-lt (x ∷ xs) (p, h) = omega (arith, from_le_bytes-lt xs h, two_pow_byte (length xs))

pub from-to_le_bytes : (n x : ℕ) → from_le_bytes (to_le_bytes n x) ≡ x % 2 ^ (8 * n)
unfolding from_le_bytes to_le_bytes
from-to_le_bytes zero x = omega arith
from-to_le_bytes (suc n) x = omega (
  arith,
  from-to_le_bytes n (x / 256),
  ap (λ (t : ℕ). x % t) (two_pow_byte n),
  mod_byte x (2 ^ (8 * n)) (two_pow_pos (8 * n)),
)

-- A shift that loses no bit of a word of 64.
pub shl64-fits : (k n x : ℕ) → x < 2 ^ n → k + n ≤ 64 → 0 < n → shl64 x k ≡ x * 2 ^ k
shl64-fits k n x h room pos =
    let top : 2 ^ (k + n) ≤ 2 ^ 64 = two_pow_mono (k + n) 64 room in
    let m : (x + 1) * 2 ^ k ≤ 2 ^ n * 2 ^ k =
      mul_mono (x + 1) (2 ^ k) (2 ^ n) (2 ^ k) (omega arith) (omega arith) in
    let p = two_pow_pos k in
    ap (λ (t : ℕ). x * 2 ^ t % 2 ^ 64) (small k (omega arith)) ∙ omega (arith, two_pow_add k n)
  where
    small : (i : ℕ) → i ≤ 63 → i % 64 ≡ i
    small i le = omega arith
