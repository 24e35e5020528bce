-- ===== src/Bitstream/Value.antt =====
-- The bits of an `OutputBitstream` as one number, its first bit the lowest: the bytes written,
-- then the bit buffer. `add_bits` and `flush_bits` are correct when they append to that number and
-- keep it.
use zenflate.Prelude.{ℕ, ◌+◌, ◌*◌, ◌%◌, ◌^◌, ◌≤◌, ◌<◌, bit_or, length, take, arith, ◌≡◌, ap, ◌∙◌}
use zenflate.Prelude.Arith.{two_pow_add, two_pow_mono, mul_mono}
use zenflate.Prelude.Bits.{bit_or_disjoint}
use zenflate.Prelude.Words.{shl64, from_le_bytes}
use zenflate.Bitstream.{OutputBitstream, add_bits}

abbrev pub stream : OutputBitstream → ℕ
stream os = from_le_bytes (take os.pos os.buf) + os.bitbuf * 2 ^ (8 * os.pos)

abbrev pub size : OutputBitstream → ℕ
size os = 8 * os.pos + os.bitcount

pub record IsValid (os : OutputBitstream) : Type 0 where
  pub bits_fit : os.bitbuf < 2 ^ os.bitcount
  pub count_le : os.bitcount ≤ 63
  pub pos_le : os.pos ≤ length os.buf

-- A field of `n` bits above `k` bits of a word of 64.
shl_field :
    (k n bits : ℕ)
    → bits < 2 ^ n
    → k + n ≤ 63
    → (shl64 bits k ≡ bits * 2 ^ k) × (bits * 2 ^ k + 2 ^ k ≤ 2 ^ (k + n))
shl_field k n bits h room =
    let le : 2 ^ k ≤ 2 ^ 63 = two_pow_mono k 63 (omega arith) in
    let top : 2 ^ (k + n) ≤ 2 ^ 63 = two_pow_mono (k + n) 63 room in
    let e : 2 ^ (k + n) ≡ 2 ^ k * 2 ^ n = two_pow_add k n in
    let m : (bits + 1) * 2 ^ k ≤ 2 ^ n * 2 ^ k =
      mul_mono (bits + 1) (2 ^ k) (2 ^ n) (2 ^ k) (omega arith) (omega arith) in
    (ap (λ (t : ℕ). bits * 2 ^ t % 2 ^ 64) (small k (omega arith)) ∙ omega arith, omega arith)
  where
    small : (i : ℕ) → i ≤ 63 → i % 64 ≡ i
    small i le = omega arith

add_bits-fields :
    (os : OutputBitstream) (bits n : ℕ)
    → IsValid os
    → bits < 2 ^ n
    → os.bitcount + n ≤ 63
    → ((add_bits os bits n).bitbuf ≡ os.bitbuf + bits * 2 ^ os.bitcount)
      × ((add_bits os bits n).bitcount ≡ os.bitcount + n)
unfolding add_bits
add_bits-fields os bits n v h room =
    let (e, _) = shl_field os.bitcount n bits h room in
    (ap (bit_or os.bitbuf) e ∙ bit_or_disjoint os.bitcount os.bitbuf bits v.bits_fit, omega arith)

-- On a valid stream, `add_bits` of a value that fits its `n` bits, which fit the buffer, keeps
-- the stream valid and appends these bits to it.
pub add_bits-stream :
    (os : OutputBitstream) (bits n : ℕ)
    → IsValid os
    → bits < 2 ^ n
    → os.bitcount + n ≤ 63
    → IsValid (add_bits os bits n)
      × (stream (add_bits os bits n) ≡ stream os + bits * 2 ^ size os)
      × (size (add_bits os bits n) ≡ size os + n)
add_bits-stream os bits n v h room =
    let (e, f) = add_bits-fields os bits n v h room in
    let (_, g) = shl_field os.bitcount n bits h room in
    (
      record {
        bits_fit = rw (e, f) (omega arith);
        count_le = omega arith;
        pos_le = unfold add_bits in v.pos_le;
      },
      unfold add_bits in
          omega (
            arith,
            ap (λ (t : ℕ). t * 2 ^ (8 * os.pos)) e,
            ap (λ (t : ℕ). bits * t) (two_pow_add (8 * os.pos) os.bitcount),
          ),
      unfold add_bits in omega arith,
    )
