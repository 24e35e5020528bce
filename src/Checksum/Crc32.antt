-- ===== src/Checksum/Crc32.antt =====
-- src/checksum/crc32.rs without its `simd` feature, and the table of src/checksum/tables.rs: the
-- slice-by-8 routine, `crc32_combine` and the hasher. A checksum and the words of a chunk are u32.
pub mod Linear
pub mod Slices
pub mod Register
pub mod Matrix
pub mod Combine
use zenflate.Prelude.{
  ℕ, zero, suc, ◌+◌, ◌-◌, ◌*◌, ◌/◌, ◌%◌, ◌^◌, bit_and, bit_xor, List, [], ◌∷◌, ◌++◌, map, length,
  take, drop, get_or, ◌==◌, not, if◌then◌else◌,
}
use zenflate.Prelude.Range.{range}
use zenflate.Prelude.Words.{from_le_bytes, shl32}

-- `CRC32_POLY`, with its bits reversed
abbrev pub crc32_poly : ℕ
crc32_poly = 0xedb88320

-- `!crc` on a u32
unfoldable pub not32 : ℕ → ℕ
not32 crc = bit_xor crc 0xffffffff

-- A round of `while j < 8`
pub next_bit : ℕ → ℕ
next_bit crc = if not (bit_and crc 1 == 0) then bit_xor (crc / 2) crc32_poly else crc / 2

pub next_bits : ℕ → ℕ → ℕ
next_bits zero crc = crc
next_bits (suc j) crc = next_bits j (next_bit crc)

pub generate_slice1_table : List ℕ
unfolding next_bits range
generate_slice1_table = map (λ i. next_bits 8 i) (range 0 256)

-- A subtable from the one before it and the first.
pub next_subtable : List ℕ → List ℕ → List ℕ
next_subtable first prev = map (λ p. bit_xor (p / 2 ^ 8) (get_or first (bit_and p 0xff) 0)) prev

pub subtables : ℕ → List ℕ → List ℕ → List ℕ
unfolding next_subtable
subtables zero first prev = []
subtables (suc k) first prev = let next = next_subtable first prev in next ++ subtables k first next

pub crc32_slice8_table : List ℕ
unfolding generate_slice1_table subtables
crc32_slice8_table =
    generate_slice1_table ++ subtables 7 generate_slice1_table generate_slice1_table

abbrev pub lookup : ℕ → ℕ
lookup i = get_or crc32_slice8_table i 0

-- `(crc >> 8) ^ table[(crc as u8) ^ b]`
pub update_byte : ℕ → ℕ → ℕ
update_byte crc b = bit_xor (crc / 2 ^ 8) (lookup (bit_xor (crc % 256) b))

pub lead_bytes : ℕ → List ℕ → ℕ
unfolding update_byte
lead_bytes crc [] = crc
lead_bytes crc (b ∷ bytes) = lead_bytes (update_byte crc b) bytes

-- The eight lookups of a chunk, for the words `crc ^ v1` and `v2`.
pub update_words : ℕ → ℕ → ℕ
update_words w v2 =
    bit_xor
      (bit_xor
        (bit_xor
          (bit_xor
            (bit_xor
              (bit_xor (bit_xor (lookup (0x700 + w % 256)) (lookup (0x600 + w / 2 ^ 8 % 256)))
                (lookup (0x500 + w / 2 ^ 16 % 256)))
              (lookup (0x400 + w / 2 ^ 24 % 256)))
            (lookup (0x300 + v2 % 256)))
          (lookup (0x200 + v2 / 2 ^ 8 % 256)))
        (lookup (0x100 + v2 / 2 ^ 16 % 256)))
      (lookup (v2 / 2 ^ 24 % 256))

-- `as_chunks::<8>().0`: what is behind the last whole chunk is left out.
pub whole_chunks : ℕ → List ℕ → ℕ
unfolding update_words from_le_bytes
whole_chunks crc (c0 ∷ c1 ∷ c2 ∷ c3 ∷ c4 ∷ c5 ∷ c6 ∷ c7 ∷ rest) =
    let v1 = from_le_bytes (c0 ∷ c1 ∷ c2 ∷ c3 ∷ []) in
    let v2 = from_le_bytes (c4 ∷ c5 ∷ c6 ∷ c7 ∷ []) in
    whole_chunks (update_words (bit_xor crc v1) v2) rest
whole_chunks crc rest = crc

pub crc32_slice8 : ℕ → List ℕ → ℕ
unfolding lead_bytes whole_chunks
crc32_slice8 crc bytes =
    let lead = length bytes % 8 in whole_chunks (lead_bytes crc (take lead bytes)) (drop lead bytes)

unfoldable pub crc32 : ℕ → List ℕ → ℕ
unfolding not32 crc32_slice8
crc32 crc [] = crc
crc32 crc (b ∷ bytes) = not32 (crc32_slice8 (not32 crc) (b ∷ bytes))

-- `while vec != 0`: a u32 has 32 digits.
pub gf2_loop : ℕ → List ℕ → ℕ → ℕ → ℕ → ℕ
gf2_loop zero mat vec sum i = sum
gf2_loop (suc fuel) mat vec sum i =
    let sum' = if not (bit_and vec 1 == 0) then bit_xor sum (get_or mat i 0) else sum in
    let rest = gf2_loop fuel mat (vec / 2) sum' (i + 1) in if vec == 0 then sum else rest

pub gf2_matrix_times : List ℕ → ℕ → ℕ
unfolding gf2_loop
gf2_matrix_times mat vec = gf2_loop 32 mat vec 0 0

pub gf2_matrix_square : List ℕ → List ℕ
unfolding gf2_matrix_times
gf2_matrix_square mat = map (λ row. gf2_matrix_times mat row) mat

-- `*item = row; row <<= 1`
pub shifted_rows : ℕ → ℕ → List ℕ
shifted_rows zero row = []
shifted_rows (suc n) row = row ∷ shifted_rows n (shl32 row 1)

-- The operator for one zero bit.
pub one_zero_bit : List ℕ
unfolding shifted_rows
one_zero_bit = crc32_poly ∷ shifted_rows 31 1

-- The loop. `even` and `odd` take turns, the one for a round's matrix and the other for the next; a
-- round halves `n`, so `n` rounds end it.
pub combine_loop : ℕ → List ℕ → ℕ → ℕ → ℕ
combine_loop zero mat result n = result
combine_loop (suc fuel) mat result n =
    let square = gf2_matrix_square mat in
    let result' = if not (bit_and n 1 == 0) then gf2_matrix_times square result else result in
    let rest = combine_loop fuel square result' (n / 2) in if n / 2 == 0 then result' else rest

pub crc32_combine : ℕ → ℕ → ℕ → ℕ
crc32_combine crc1 crc2 len2 =
    let four_zero_bits = gf2_matrix_square (gf2_matrix_square one_zero_bit) in
    if len2 == 0 then crc1 else bit_xor (combine_loop len2 four_zero_bits crc1 len2) crc2

pub record Crc32Hasher : Type 0 where
  pub crc : ℕ
  pub amount : ℕ

pub new : Crc32Hasher
new = record { crc = 0; amount = 0 }

unfoldable new_with_initial : ℕ → Crc32Hasher
new_with_initial init = record { crc = init; amount = 0 }

unfoldable hash : List ℕ → ℕ
hash bytes = crc32 0 bytes

-- `amount` is a u64.
pub update : Crc32Hasher → List ℕ → Crc32Hasher
update h buf = record { crc = crc32 h.crc buf; amount = (h.amount + length buf) % 2 ^ 64 }

pub finalize : Crc32Hasher → ℕ
finalize h = h.crc

unfoldable reset : Crc32Hasher → Crc32Hasher
reset h = record h { crc = 0; amount = 0 }

-- `usize_bits` is the width of a usize on the target: `other.amount as usize` truncates to it.
pub combine : ℕ → Crc32Hasher → Crc32Hasher → Crc32Hasher
combine usize_bits h other = record {
  crc = crc32_combine h.crc other.crc (other.amount % 2 ^ usize_bits);
  amount = (h.amount + other.amount) % 2 ^ 64;
}
