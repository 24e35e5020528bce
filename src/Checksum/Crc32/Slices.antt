-- ===== src/Checksum/Crc32/Slices.antt =====
-- The entries of the slice-by-8 table of src/checksum/tables.rs.
use zenflate.Prelude.{
  ℕ, zero, suc, ◌+◌, ◌*◌, ◌/◌, ◌%◌, ◌^◌, ◌<◌, bit_and, bit_xor, List, ◌++◌, length, get_or, arith,
  ◌≡◌, ap, ◌∙◌, sym,
}
use zenflate.Prelude.Range.{
  range, length-range, get_or-range, length-map, get_or-map, get_or-append_front,
  get_or-append_back,
}
use zenflate.Prelude.Bits.{bit_and_mask}
use zenflate.Checksum.Crc32.{
  next_bits, generate_slice1_table, next_subtable, subtables, crc32_slice8_table, lookup,
}
use zenflate.Checksum.Crc32.Linear.{next_bits-add, next_bits-split}

-- The table of a byte that `n` bytes follow, itself included.
record Row (n : ℕ) (row : List ℕ) : Type 0 where
  size : length row ≡ 256
  entry : (i : ℕ) → i < 256 → get_or row i 0 ≡ next_bits (8 * n) i

first-Row : Row 1 generate_slice1_table
unfolding generate_slice1_table
first-Row = record {
  size = length-map (λ i. next_bits 8 i) (range 0 256) ∙ length-range 0 256;
  entry = λ i h.
      get_or-map (λ i. next_bits 8 i) (range 0 256) i 0 0 (omega (arith, length-range 0 256))
      ∙ ap (λ t. next_bits 8 t) (get_or-range 0 256 i 0 h ∙ omega arith);
}

next-Row :
    (n : ℕ) (row : List ℕ) → Row n row → Row (n + 1) (next_subtable generate_slice1_table row)
unfolding next_subtable
next-Row n row r =
    let f : ℕ → ℕ = λ p. bit_xor (p / 2 ^ 8) (get_or generate_slice1_table (bit_and p 0xff) 0) in
    let more : 8 * (n + 1) ≡ 8 * n + 8 = omega arith in
    record {
      size = length-map f row ∙ r.size;
      entry = λ i h.
          get_or-map f row i 0 0 (omega (arith, r.size))
          ∙ ap f (r.entry i h)
          ∙ step (next_bits (8 * n) i)
          ∙ sym (ap (λ (t : ℕ). next_bits t i) more ∙ next_bits-add (8 * n) 8 i);
    }
  where
    step :
        (p : ℕ)
        → bit_xor (p / 2 ^ 8) (get_or generate_slice1_table (bit_and p 0xff) 0) ≡ next_bits 8 p
    step p =
        ap (λ t. bit_xor (p / 2 ^ 8) (get_or generate_slice1_table t 0)) (bit_and_mask 8 p)
        ∙ ap (bit_xor (p / 2 ^ 8)) (first-Row.entry (p % 256) (omega arith))
        ∙ sym (next_bits-split 8 p)

subtables-entry :
    (k n : ℕ) (row : List ℕ)
    → Row n row
    → (j i : ℕ) → j < k
    → i < 256
    → get_or (subtables k generate_slice1_table row) (256 * j + i) 0 ≡ next_bits (8 * (n + 1 + j)) i
unfolding subtables
subtables-entry zero n row r j i h g = absurd (omega arith)
subtables-entry (suc k) n row r zero i h g =
    let next = next_subtable generate_slice1_table row in
    let s = next-Row n row r in
    let a : 256 * 0 + i ≡ i = omega arith in
    let b : 8 * (n + 1) ≡ 8 * (n + 1 + 0) = omega arith in
    ap (λ (t : ℕ). get_or (next ++ subtables k generate_slice1_table next) t 0) a
    ∙ get_or-append_front next (subtables k generate_slice1_table next) i 0 (omega (arith, s.size))
    ∙ s.entry i g
    ∙ ap (λ (t : ℕ). next_bits t i) b
subtables-entry (suc k) n row r (suc j) i h g =
    let next = next_subtable generate_slice1_table row in
    let s = next-Row n row r in
    let rest = subtables k generate_slice1_table next in
    let a : 256 * suc j + i ≡ length next + (256 * j + i) = omega (arith, s.size) in
    let b : 8 * (n + 1 + 1 + j) ≡ 8 * (n + 1 + suc j) = omega arith in
    ap (λ (t : ℕ). get_or (next ++ rest) t 0) a
    ∙ get_or-append_back next rest (256 * j + i) 0
    ∙ subtables-entry k (n + 1) next s j i (omega arith) g
    ∙ ap (λ (t : ℕ). next_bits t i) b

-- The entry of a byte that `k` more bytes follow.
pub lookup-entry : (k i : ℕ) → k < 8 → i < 256 → lookup (256 * k + i) ≡ next_bits (8 * (k + 1)) i
unfolding crc32_slice8_table
lookup-entry zero i h g =
    let a : 256 * 0 + i ≡ i = omega arith in
    let first = generate_slice1_table in
    ap (λ (t : ℕ). get_or (first ++ subtables 7 first first) t 0) a
    ∙ get_or-append_front first (subtables 7 first first) i 0 (omega (arith, first-Row.size))
    ∙ first-Row.entry i g
lookup-entry (suc k) i h g =
    let first = generate_slice1_table in
    let a : 256 * suc k + i ≡ length first + (256 * k + i) = omega (arith, first-Row.size) in
    let b : 8 * (1 + 1 + k) ≡ 8 * (suc k + 1) = omega arith in
    ap (λ (t : ℕ). get_or (first ++ subtables 7 first first) t 0) a
    ∙ get_or-append_back first (subtables 7 first first) (256 * k + i) 0
    ∙ subtables-entry 7 1 first first-Row k i (omega arith) g
    ∙ ap (λ (t : ℕ). next_bits t i) b
