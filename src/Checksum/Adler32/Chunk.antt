-- ===== src/Checksum/Adler32/Chunk.antt =====
-- `adler32_chunk_scalar` against the two sums that define Adler-32.
use zenflate.Prelude.{
  ℕ, ◌+◌, ◌*◌, ◌%◌, ◌^◌, ◌≤◌, ◌<◌, ◌≡◌, refl, List, [], ◌∷◌, ◌++◌, length, All, arith,
  length-append, inl, inr, Bool-cases, ltb,
}
use zenflate.Prelude.Arith.{mul_mono, suc_mul, mul_add}
use zenflate.Checksum.Adler32.{
  Sums, divisor, add_group, groups, weigh, tail_bytes, finish_chunk, no_sums, adler32_chunk_scalar,
}

abbrev pub IsByte : ℕ → Type 0
IsByte b = b < 256

-- The sum of the bytes, and the sum in which a byte counts once for each byte from it on.
abbrev pub sum : List ℕ → ℕ
sum [] = 0
sum (b ∷ bs) = b + sum bs

abbrev pub weighted : List ℕ → ℕ
weighted [] = 0
weighted (b ∷ bs) = b + length bs * b + weighted bs

pub sum-append : (xs ys : List ℕ) → sum (xs ++ ys) ≡ sum xs + sum ys
sum-append [] ys = omega arith
sum-append (x ∷ xs) ys = omega (arith, sum-append xs ys)

pub weighted-append :
    (xs ys : List ℕ) → weighted (xs ++ ys) ≡ weighted xs + length ys * sum xs + weighted ys
weighted-append [] ys = omega arith
weighted-append (x ∷ xs) ys = rw (length-append xs ys, weighted-append xs ys) (omega arith)

pub sum-le : (xs : List ℕ) → All IsByte xs → sum xs ≤ 255 * length xs
sum-le [] h = omega arith
sum-le (x ∷ xs) (p, h) = omega (arith, sum-le xs h)

pub weighted-le :
    (xs : List ℕ) → All IsByte xs → 2 * weighted xs ≤ 255 * (length xs * length xs + length xs)
weighted-le [] h = omega arith
weighted-le (x ∷ xs) (p, h) =
    omega
      (arith, weighted-le xs h, mul_mono (length xs) x (length xs) 255 (omega arith) (omega arith))

tail_bytes-exact :
    (s1 s2 : ℕ) (p : List ℕ)
    → s1 + sum p < 2 ^ 32
    → s2 + length p * s1 + weighted p < 2 ^ 32
    → tail_bytes s1 s2 p ≡ (s1 + sum p, s2 + length p * s1 + weighted p)
unfolding tail_bytes
tail_bytes-exact s1 s2 [] h k = ground arith
tail_bytes-exact s1 s2 (b ∷ p) h k = ground (
  arith,
  suc_mul (length p) s1,
  mul_add (length p) s1 b,
  tail_bytes-exact (s1 + b) (s2 + (s1 + b)) p,
)

abbrev gain : Sums → ℕ
gain s = 4 * (s.s1_sum + s.byte_0_sum) + 3 * s.byte_1_sum + 2 * s.byte_2_sum + s.byte_3_sum

add_group-exact :
    (s : Sums) (p0 p1 p2 p3 : ℕ)
    → s.s1 + p0 + p1 + p2 + p3 < 2 ^ 32
    → gain s + 4 * s.s1 + 4 * p0 + 3 * p1 + 2 * p2 + p3 < 2 ^ 32
    → ((add_group s p0 p1 p2 p3).s1 ≡ s.s1 + p0 + p1 + p2 + p3)
      × (gain (add_group s p0 p1 p2 p3) ≡ gain s + 4 * s.s1 + 4 * p0 + 3 * p1 + 2 * p2 + p3)
unfolding add_group
add_group-exact s p0 p1 p2 p3 h k = (omega arith, omega arith)

groups-exact :
    (s : Sums) (p : List ℕ)
    → s.s1 + sum p < 2 ^ 32
    → gain s + length p * s.s1 + weighted p < 2 ^ 32
    → ((groups s p).0.s1 + sum (groups s p).1 ≡ s.s1 + sum p)
      × (gain (groups s p).0 + length (groups s p).1 * (groups s p).0.s1 + weighted (groups s p).1
          ≡ gain s + length p * s.s1 + weighted p)
unfolding groups
groups-exact s (p0 ∷ p1 ∷ p2 ∷ p3 ∷ p) h k =
    let s' = add_group s p0 p1 p2 p3 in
    let n = length p in
    let (e1, e2) = add_group-exact s p0 p1 p2 p3 (omega arith) (omega arith) in
    let here : n * s'.s1 ≡ n * s.s1 + n * p0 + n * p1 + n * p2 + n * p3 = rw e1 (omega arith) in
    let (q1, q2) = groups-exact s' p (omega arith) (omega arith) in (omega arith, omega arith)
groups-exact s _ h k = (omega arith, omega arith)

weigh-exact : (s : Sums) → gain s < 2 ^ 32 → weigh s ≡ gain s
unfolding weigh
weigh-exact s h = omega arith

finish_chunk-exact :
    (s2 : ℕ) (s : Sums) (p : List ℕ)
    → s.s1 + sum p < 2 ^ 32
    → s2 + gain s + length p * s.s1 + weighted p < 2 ^ 32
    → finish_chunk s2 (s, p)
      ≡ ((s.s1 + sum p) % divisor, (s2 + gain s + length p * s.s1 + weighted p) % divisor)
unfolding finish_chunk
finish_chunk-exact s2 s p h k =
    let e : (s2 + weigh s) % 2 ^ 32 ≡ s2 + gain s = omega (arith, weigh-exact s (omega arith)) in
    rw (e, tail_bytes-exact s.s1 (s2 + gain s) p h k) refl

-- Below 2 ^ 32 nothing wraps, so a chunk adds its two sums and reduces them.
pub chunk-exact :
    (s1 s2 : ℕ) (bytes : List ℕ)
    → s1 + sum bytes < 2 ^ 32
    → s2 + length bytes * s1 + weighted bytes < 2 ^ 32
    → adler32_chunk_scalar s1 s2 bytes
      ≡ ((s1 + sum bytes) % divisor, (s2 + length bytes * s1 + weighted bytes) % divisor)
unfolding adler32_chunk_scalar
chunk-exact s1 s2 bytes h k = elim (Bool-cases (ltb (length bytes) 4)) [
  | inl few ↦ rw (few, tail_bytes-exact s1 s2 bytes h k) refl
  | inr more ↦
      let (e1, e2) = groups-exact (no_sums s1) bytes h (omega arith) in
      let (s, p) = groups (no_sums s1) bytes in
      rw (more, finish_chunk-exact s2 s p (omega arith) (omega arith), e1) (ground arith)
]

-- The longest chunk fits, whatever the bytes, from any two 16-bit sums.
pub chunk_fits :
    (s1 s2 : ℕ) (bytes : List ℕ)
    → s1 < 2 ^ 16
    → s2 < 2 ^ 16
    → All IsByte bytes
    → length bytes ≤ 5552
    → (s1 + sum bytes < 2 ^ 32) × (s2 + length bytes * s1 + weighted bytes < 2 ^ 32)
chunk_fits s1 s2 bytes h1 h2 hb hn = (
  omega (arith, sum-le bytes hb),
  omega (
    arith,
    weighted-le bytes hb,
    mul_mono (length bytes) (length bytes) 5552 5552 hn hn,
    mul_mono (length bytes) s1 5552 65535 hn (omega arith),
  ),
)
