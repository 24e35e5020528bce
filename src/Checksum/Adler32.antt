-- ===== src/Checksum/Adler32.antt =====
-- src/checksum/adler32.rs without its `simd` feature: the scalar routine, `adler32_combine` and the
-- hasher. A checksum, `s1`, `s2` and the five sums are u32 values, so each sum wraps at 2 ^ 32.
pub mod Chunk
pub mod Scalar
pub mod Combine
use zenflate.Prelude.{
  ℕ, zero, suc, ◌+◌, ◌-◌, ◌*◌, ◌/◌, ◌%◌, ◌^◌, min, bit_and, bit_or, List, [], ◌∷◌, length, take,
  drop, ltb, if◌then◌else◌,
}

-- `DIVISOR`
abbrev pub divisor : ℕ
divisor = 65521

-- `MAX_CHUNK_LEN & !3`; the constant is a multiple of 4 already.
abbrev pub max_chunk_len : ℕ
max_chunk_len = 5552

abbrev pub add32 : ℕ → ℕ → ℕ
add32 a b = (a + b) % 2 ^ 32

abbrev pub sub32 : ℕ → ℕ → ℕ
sub32 a b = (a + 2 ^ 32 - b) % 2 ^ 32

abbrev pub mul32 : ℕ → ℕ → ℕ
mul32 a b = a * b % 2 ^ 32

-- `(s2 << 16) | s1`
pub pack : ℕ → ℕ → ℕ
pack s1 s2 = bit_or s1 (s2 * 2 ^ 16 % 2 ^ 32)

-- The variables of the loop over groups of four bytes.
pub record Sums : Type 0 where
  pub s1 : ℕ
  pub s1_sum : ℕ
  pub byte_0_sum : ℕ
  pub byte_1_sum : ℕ
  pub byte_2_sum : ℕ
  pub byte_3_sum : ℕ

-- One round of `while p.len() >= 4`.
pub add_group : Sums → ℕ → ℕ → ℕ → ℕ → Sums
add_group s p0 p1 p2 p3 = record {
  s1 = add32 s.s1 (add32 (add32 (add32 p0 p1) p2) p3);
  s1_sum = add32 s.s1_sum s.s1;
  byte_0_sum = add32 s.byte_0_sum p0;
  byte_1_sum = add32 s.byte_1_sum p1;
  byte_2_sum = add32 s.byte_2_sum p2;
  byte_3_sum = add32 s.byte_3_sum p3;
}

-- The loop, with what it leaves of the chunk.
pub groups : Sums → List ℕ → Sums × List ℕ
groups s (p0 ∷ p1 ∷ p2 ∷ p3 ∷ p) = groups (add_group s p0 p1 p2 p3) p
groups s p = (s, p)

-- What `s2` gains from the groups.
pub weigh : Sums → ℕ
weigh s =
    add32
      (add32 (add32 (mul32 4 (add32 s.s1_sum s.byte_0_sum)) (mul32 3 s.byte_1_sum))
        (mul32 2 s.byte_2_sum))
      s.byte_3_sum

-- `for &b in p`
pub tail_bytes : ℕ → ℕ → List ℕ → ℕ × ℕ
tail_bytes s1 s2 [] = (s1, s2)
tail_bytes s1 s2 (b ∷ p) = let s1' = add32 s1 b in tail_bytes s1' (add32 s2 s1') p

abbrev pub no_sums : ℕ → Sums
no_sums s1 = record {
  s1 = s1;
  s1_sum = 0;
  byte_0_sum = 0;
  byte_1_sum = 0;
  byte_2_sum = 0;
  byte_3_sum = 0;
}

-- The bytes behind the last group, and the two reductions.
pub finish_chunk : ℕ → Sums × List ℕ → ℕ × ℕ
finish_chunk s2 (s, p) =
    let (t1, t2) = tail_bytes s.s1 (add32 s2 (weigh s)) p in (t1 % divisor, t2 % divisor)

pub adler32_chunk_scalar : ℕ → ℕ → List ℕ → ℕ × ℕ
unfolding groups finish_chunk tail_bytes weigh add_group
adler32_chunk_scalar s1 s2 bytes =
    if ltb (length bytes) 4
    then (let (t1, t2) = tail_bytes s1 s2 bytes in (t1 % divisor, t2 % divisor))
    else finish_chunk s2 (groups (no_sums s1) bytes)

-- `while !remaining.is_empty()`. A round takes a byte at least.
pub chunks : ℕ → ℕ × ℕ → List ℕ → ℕ × ℕ
chunks fuel s [] = s
chunks zero s (b ∷ rest) = s
chunks (suc fuel) (s1, s2) (b ∷ rest) =
    let chunk_len = min (length (b ∷ rest)) max_chunk_len in
    chunks fuel (adler32_chunk_scalar s1 s2 (take chunk_len (b ∷ rest))) (drop chunk_len (b ∷ rest))

pub adler32_scalar : ℕ → List ℕ → ℕ
unfolding chunks adler32_chunk_scalar pack
adler32_scalar adler bytes =
    let (s1, s2) = chunks (length bytes) (bit_and adler 0xffff, adler / 2 ^ 16) bytes in pack s1 s2

unfoldable pub adler32 : ℕ → List ℕ → ℕ
unfolding adler32_scalar
adler32 adler bytes = adler32_scalar adler bytes

pub adler32_combine : ℕ → ℕ → ℕ → ℕ
unfolding pack
adler32_combine adler1 adler2 len2 =
    let s1_1 = bit_and adler1 0xffff in
    let s2_1 = adler1 / 2 ^ 16 in
    let s1_2 = bit_and adler2 0xffff in
    let s2_2 = adler2 / 2 ^ 16 in
    let s1 = sub32 (add32 (add32 s1_1 s1_2) divisor) 1 % divisor in
    let rem = len2 % divisor in
    let s2 =
      sub32 (add32 (add32 (add32 s2_1 s2_2) (mul32 rem s1_1)) (mul32 divisor 2)) rem % divisor in
    pack s1 s2

pub record Adler32Hasher : Type 0 where
  pub checksum : ℕ
  pub amount : ℕ

pub new : Adler32Hasher
new = record { checksum = 1; amount = 0 }

pub from_checksum : ℕ → Adler32Hasher
from_checksum checksum = record { checksum = checksum; amount = 0 }

-- `amount` is a u64.
pub write : Adler32Hasher → List ℕ → Adler32Hasher
write h bytes = record {
  checksum = adler32 h.checksum bytes;
  amount = (h.amount + length bytes) % 2 ^ 64;
}

pub finish : Adler32Hasher → ℕ
finish h = h.checksum

-- The hasher is mutated in place, so what it was does not matter.
unfoldable reset : Adler32Hasher → Adler32Hasher
reset h = record h { checksum = 1; amount = 0 }

-- `usize_bits` is the width of a usize on the target: `other.amount as usize` truncates to it.
pub combine : ℕ → Adler32Hasher → Adler32Hasher → Adler32Hasher
combine usize_bits h other = record {
  checksum = adler32_combine h.checksum other.checksum (other.amount % 2 ^ usize_bits);
  amount = (h.amount + other.amount) % 2 ^ 64;
}
