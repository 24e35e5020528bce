-- ===== src/Compress/Slots.antt =====
-- src/compress/block.rs: the slot of a match length and of a match offset, which is the symbol that
-- codes it, and the base values and extra bits of src/constants.rs.
pub mod Covers
use zenflate.Prelude.{
  ℕ, zero, suc, ◌+◌, ◌-◌, ◌*◌, ◌/◌, ◌^◌, List, [], ◌∷◌, get_or, set, replicate, ltb, leb,
  if◌then◌else◌,
}
use zenflate.Prelude.Words.{sub32}

abbrev pub deflate_length_base : List ℕ
deflate_length_base =
    3 ∷ 4 ∷ 5 ∷ 6 ∷ 7 ∷ 8 ∷ 9 ∷ 10 ∷ 11 ∷ 13 ∷ 15 ∷ 17 ∷ 19 ∷ 23 ∷ 27 ∷ 31 ∷ 35 ∷ 43 ∷ 51 ∷ 59 ∷ 67
    ∷ 83 ∷ 99 ∷ 115 ∷ 131 ∷ 163 ∷ 195 ∷ 227 ∷ 258 ∷ []

abbrev pub deflate_length_extra_bits : List ℕ
deflate_length_extra_bits =
    0 ∷ 0 ∷ 0 ∷ 0 ∷ 0 ∷ 0 ∷ 0 ∷ 0 ∷ 1 ∷ 1 ∷ 1 ∷ 1 ∷ 2 ∷ 2 ∷ 2 ∷ 2 ∷ 3 ∷ 3 ∷ 3 ∷ 3 ∷ 4 ∷ 4 ∷ 4 ∷ 4
    ∷ 5 ∷ 5 ∷ 5 ∷ 5 ∷ 0 ∷ []

abbrev pub deflate_offset_base : List ℕ
deflate_offset_base =
    1 ∷ 2 ∷ 3 ∷ 4 ∷ 5 ∷ 7 ∷ 9 ∷ 13 ∷ 17 ∷ 25 ∷ 33 ∷ 49 ∷ 65 ∷ 97 ∷ 129 ∷ 193 ∷ 257 ∷ 385 ∷ 513 ∷ 769
    ∷ 1025 ∷ 1537 ∷ 2049 ∷ 3073 ∷ 4097 ∷ 6145 ∷ 8193 ∷ 12289 ∷ 16385 ∷ 24577 ∷ 0 ∷ 0 ∷ []

abbrev pub deflate_offset_extra_bits : List ℕ
deflate_offset_extra_bits =
    0 ∷ 0 ∷ 0 ∷ 0 ∷ 1 ∷ 1 ∷ 2 ∷ 2 ∷ 3 ∷ 3 ∷ 4 ∷ 4 ∷ 5 ∷ 5 ∷ 6 ∷ 6 ∷ 7 ∷ 7 ∷ 8 ∷ 8 ∷ 9 ∷ 9 ∷ 10 ∷ 10
    ∷ 11 ∷ 11 ∷ 12 ∷ 12 ∷ 13 ∷ 13 ∷ 0 ∷ 0 ∷ []

-- `while j < count && base + j <= DEFLATE_MAX_MATCH_LEN`, from `at = base + j`
unfoldable pub fill_lengths : ℕ → ℕ → ℕ → List ℕ → List ℕ
fill_lengths slot at zero table = table
fill_lengths slot at (suc count) table =
    let rest = fill_lengths slot (suc at) count (set table at slot) in
    if leb at 258 then rest else table

-- `while slot < 29`
unfoldable pub length_slots : ℕ → List ℕ → List ℕ → List ℕ → List ℕ
length_slots slot [] extras table = table
length_slots slot (base ∷ bases) [] table = table
length_slots slot (base ∷ bases) (extra ∷ extras) table =
    length_slots (suc slot) bases extras (fill_lengths slot base (2 ^ extra) table)

unfoldable pub length_slot : List ℕ
length_slot = length_slots 0 deflate_length_base deflate_length_extra_bits (replicate 259 0)

-- `while j < count`, from `offset_m1 = base + j - 1`
unfoldable pub fill_offsets : ℕ → ℕ → ℕ → List ℕ → List ℕ
fill_offsets slot offset_m1 zero table = table
fill_offsets slot offset_m1 (suc count) table =
    fill_offsets slot (suc offset_m1) count
      (if ltb offset_m1 256 then set table offset_m1 slot else table)

-- `while slot < 30`, where `n` is `30 - slot`
unfoldable pub offset_slots : ℕ → ℕ → List ℕ → List ℕ
offset_slots slot zero table = table
offset_slots slot (suc n) table = offset_slots (suc slot) n (
    fill_offsets slot (get_or deflate_offset_base slot 0 - 1)
      (2 ^ get_or deflate_offset_extra_bits slot 0) table)

unfoldable pub offset_slot_small : List ℕ
offset_slot_small = offset_slots 0 30 (replicate 256 0)

-- An index out of the table, at which the source panics, has the slot 0; the offsets of the format,
-- 1 to 32768, have none.
unfoldable pub get_offset_slot : ℕ → ℕ
get_offset_slot offset =
    let n = sub32 256 offset / 2 ^ 29 in get_or offset_slot_small ((offset - 1) / 2 ^ n) 0 + n * 2
