-- ===== src/Checksum/Adler32/Scalar.antt =====
-- `adler32_scalar` on an input of any length: the chunks together give the Adler-32 of RFC 1950.
use zenflate.Prelude.{
  ℕ, zero, suc, ◌+◌, ◌*◌, ◌/◌, ◌%◌, ◌^◌, ◌≤◌, ◌<◌, ◌≡◌, List, [], ◌∷◌, ◌++◌, length, All, arith,
  length-append, take, drop, min, All-take, All-drop, take-append-drop, length-take, length-drop,
  ap, ◌∙◌,
}
use zenflate.Prelude.Bits.{bit_or_disjoint, bit_and_mask}
use zenflate.Checksum.Adler32.{divisor, max_chunk_len, pack, chunks, adler32_scalar}
use zenflate.Checksum.Adler32.Chunk.{
  IsByte, sum, weighted, sum-append, weighted-append, chunk-exact, chunk_fits,
}

pub pack-exact : (s1 s2 : ℕ) → s1 < 2 ^ 16 → s2 < 2 ^ 16 → pack s1 s2 ≡ s1 + s2 * 2 ^ 16
unfolding pack
pack-exact s1 s2 h k =
    let e : s2 * 2 ^ 16 % 2 ^ 32 ≡ s2 * 2 ^ 16 = omega arith in rw e (bit_or_disjoint 16 s1 s2 h)

-- The two sums of a chunk, reduced before the next one or not.
pub rejoin :
    (s1 s2 a w n b v : ℕ)
    → (((s1 + a) % divisor + b) % divisor ≡ (s1 + (a + b)) % divisor)
      × (((s2 + w) % divisor + n * ((s1 + a) % divisor) + v) % divisor
          ≡ (s2 + (w + n * (s1 + a) + v)) % divisor)
rejoin s1 s2 a w n b v =
    let q = (s1 + a) / divisor in
    let e : s1 + a ≡ q * divisor + (s1 + a) % divisor = omega arith in
    let f : n * (s1 + a) ≡ n * q * divisor + n * ((s1 + a) % divisor) =
      ap (λ (t : ℕ). n * t) e ∙ omega arith in
    (omega arith, omega arith)

-- What `s1` and `s2` come to after some bytes.
abbrev pub sums_after : ℕ → ℕ → List ℕ → ℕ × ℕ
sums_after s1 s2 bytes =
    ((s1 + sum bytes) % divisor, (s2 + length bytes * s1 + weighted bytes) % divisor)

pub sums_after-append :
    (s1 s2 : ℕ) (xs ys : List ℕ)
    → sums_after (sums_after s1 s2 xs).0 (sums_after s1 s2 xs).1 ys ≡ sums_after s1 s2 (xs ++ ys)
sums_after-append s1 s2 xs ys =
    let (e1, e2) =
      rejoin s1 s2 (sum xs) (length xs * s1 + weighted xs) (length ys) (sum ys) (weighted ys) in
    rw (sum-append xs ys, weighted-append xs ys, length-append xs ys) (ground arith)

chunks-exact :
    (fuel s1 s2 : ℕ) (bytes : List ℕ)
    → s1 < divisor
    → s2 < divisor
    → All IsByte bytes
    → length bytes ≤ fuel
    → chunks fuel (s1, s2) bytes ≡ sums_after s1 s2 bytes
unfolding chunks
chunks-exact fuel s1 s2 [] h1 h2 hb hf = ground arith
chunks-exact zero s1 s2 (b ∷ rest) h1 h2 hb hf = absurd (omega arith)
chunks-exact (suc fuel) s1 s2 (b ∷ rest) h1 h2 hb hf =
    let all : List ℕ = b ∷ rest in
    let n = min (length all) max_chunk_len in
    let xs = take n all in
    let ys = drop n all in
    let (p, q) =
      chunk_fits s1 s2 xs (omega arith) (omega arith) (All-take IsByte n all hb)
        (omega (arith, length-take n all)) in
    ap (λ t. chunks fuel t ys) (chunk-exact s1 s2 xs p q)
    ∙ chunks-exact fuel _ _ ys (omega arith) (omega arith) (All-drop IsByte n all hb)
        (omega (arith, length-drop n all))
    ∙ sums_after-append s1 s2 xs ys
    ∙ ap (sums_after s1 s2) (take-append-drop n all)

-- A checksum of both routines: two reduced 16-bit sums.
abbrev pub IsAdler : ℕ → Type 0
IsAdler a = (a % 2 ^ 16 < divisor) × (a / 2 ^ 16 < divisor)

-- From a valid checksum, and for bytes, `adler32_scalar` gives the sum of the bytes and the sum
-- of the running sums, both modulo 65521, as the low and the high half: no u32 sum in it wraps.
pub adler32_scalar-exact :
    (adler : ℕ) (bytes : List ℕ)
    → IsAdler adler
    → All IsByte bytes
    → adler32_scalar adler bytes
      ≡ (adler % 2 ^ 16 + sum bytes) % divisor
        + (adler / 2 ^ 16 + length bytes * (adler % 2 ^ 16) + weighted bytes) % divisor * 2 ^ 16
unfolding adler32_scalar
adler32_scalar-exact adler bytes (h1, h2) hb = rw (bit_and_mask 16 adler) (
    rw (chunks-exact (length bytes) (adler % 2 ^ 16) (adler / 2 ^ 16) bytes h1 h2 hb (omega arith))
      (pack-exact _ _ (omega arith) (omega arith)))
