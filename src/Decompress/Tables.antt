-- ===== src/Decompress/Tables.antt =====
-- The decode tables of src/decompress/mod.rs: the entry flags, the results that an entry carries
-- for each symbol, and `add_double_literals`. An entry is a u32.
pub mod Build
pub mod Subtables
pub mod Doubles
use zenflate.Prelude.{
  ℕ, zero, suc, ◌+◌, ◌-◌, ◌*◌, ◌/◌, ◌%◌, ◌^◌, bit_and, bit_or, Bool, true, false, ◌&&◌, List, [],
  ◌∷◌, ◌++◌, map, length, get_or, set, replicate, leb, ltb, ◌==◌, not, if◌then◌else◌,
}
use zenflate.Prelude.Range.{range}
use zenflate.Prelude.Words.{add32, shl32}

abbrev pub precode_tablebits : ℕ
precode_tablebits = 7

abbrev pub precode_enough : ℕ
precode_enough = 128

abbrev pub litlen_tablebits : ℕ
litlen_tablebits = 11

abbrev pub litlen_enough : ℕ
litlen_enough = 2342

abbrev pub offset_tablebits : ℕ
offset_tablebits = 8

abbrev pub offset_enough : ℕ
offset_enough = 402

abbrev pub huffdec_literal : ℕ
huffdec_literal = 0x8000_0000

abbrev pub huffdec_exceptional : ℕ
huffdec_exceptional = 0x0000_8000

abbrev pub huffdec_subtable_pointer : ℕ
huffdec_subtable_pointer = 0x0000_4000

abbrev pub huffdec_end_of_block : ℕ
huffdec_end_of_block = 0x0000_2000

abbrev pub huffdec_double_literal : ℕ
huffdec_double_literal = 0x4000_0000

abbrev pub num_precode_syms : ℕ
num_precode_syms = 19

abbrev pub num_litlen_syms_max : ℕ
num_litlen_syms_max = 288

abbrev pub num_offset_syms_max : ℕ
num_offset_syms_max = 32

abbrev pub max_pre_codeword_len : ℕ
max_pre_codeword_len = 7

-- `LENS_SIZE`: 288 + 32 + 137
abbrev pub lens_size : ℕ
lens_size = 457

-- `DEFLATE_PRECODE_LENS_PERMUTATION`
abbrev pub precode_lens_permutation : List ℕ
precode_lens_permutation =
    16 ∷ 17 ∷ 18 ∷ 0 ∷ 8 ∷ 7 ∷ 9 ∷ 6 ∷ 10 ∷ 5 ∷ 11 ∷ 4 ∷ 12 ∷ 3 ∷ 13 ∷ 2 ∷ 14 ∷ 1 ∷ 15 ∷ []

-- `(bases[i] << 16) | extra[i]` for the whole tables
unfoldable pub pack_results : List ℕ → List ℕ → List ℕ
pack_results [] es = []
pack_results (b ∷ bs) [] = []
pack_results (b ∷ bs) (e ∷ es) = bit_or (shl32 b 16) e ∷ pack_results bs es

unfoldable pub gen_precode_decode_results : List ℕ
unfolding range
gen_precode_decode_results = map (λ i. shl32 i 16) (range 0 num_precode_syms)

abbrev pub length_base : List ℕ
length_base =
    3 ∷ 4 ∷ 5 ∷ 6 ∷ 7 ∷ 8 ∷ 9 ∷ 10 ∷ 11 ∷ 13 ∷ 15 ∷ 17 ∷ 19 ∷ 23 ∷ 27 ∷ 31 ∷ 35 ∷ 43 ∷ 51 ∷ 59 ∷ 67
    ∷ 83 ∷ 99 ∷ 115 ∷ 131 ∷ 163 ∷ 195 ∷ 227 ∷ 258 ∷ []

abbrev pub length_extra_bits : List ℕ
length_extra_bits =
    0 ∷ 0 ∷ 0 ∷ 0 ∷ 0 ∷ 0 ∷ 0 ∷ 0 ∷ 1 ∷ 1 ∷ 1 ∷ 1 ∷ 2 ∷ 2 ∷ 2 ∷ 2 ∷ 3 ∷ 3 ∷ 3 ∷ 3 ∷ 4 ∷ 4 ∷ 4 ∷ 4
    ∷ 5 ∷ 5 ∷ 5 ∷ 5 ∷ 0 ∷ []

abbrev pub offset_base : List ℕ
offset_base =
    1 ∷ 2 ∷ 3 ∷ 4 ∷ 5 ∷ 7 ∷ 9 ∷ 13 ∷ 17 ∷ 25 ∷ 33 ∷ 49 ∷ 65 ∷ 97 ∷ 129 ∷ 193 ∷ 257 ∷ 385 ∷ 513 ∷ 769
    ∷ 1025 ∷ 1537 ∷ 2049 ∷ 3073 ∷ 4097 ∷ 6145 ∷ 8193 ∷ 12289 ∷ 16385 ∷ 24577 ∷ 24577 ∷ 24577 ∷ []

abbrev pub offset_extra_bits : List ℕ
offset_extra_bits =
    0 ∷ 0 ∷ 0 ∷ 0 ∷ 1 ∷ 1 ∷ 2 ∷ 2 ∷ 3 ∷ 3 ∷ 4 ∷ 4 ∷ 5 ∷ 5 ∷ 6 ∷ 6 ∷ 7 ∷ 7 ∷ 8 ∷ 8 ∷ 9 ∷ 9 ∷ 10 ∷ 10
    ∷ 11 ∷ 11 ∷ 12 ∷ 12 ∷ 13 ∷ 13 ∷ 13 ∷ 13 ∷ []

-- Literals, end of block, lengths, and the two unused symbols.
unfoldable pub gen_litlen_decode_results : List ℕ
unfolding range pack_results
gen_litlen_decode_results =
    map (λ i. bit_or huffdec_literal (shl32 i 16)) (range 0 256)
    ++ (bit_or huffdec_exceptional huffdec_end_of_block
        ∷ (pack_results length_base length_extra_bits ++ (shl32 258 16 ∷ shl32 258 16 ∷ [])))

unfoldable pub gen_offset_decode_results : List ℕ
unfolding pack_results
gen_offset_decode_results = pack_results offset_base offset_extra_bits

-- The entry that a round of `add_double_literals` leaves at `i`.
pub double_entry : List ℕ → ℕ → ℕ → ℕ
double_entry table table_bits i =
    let e1 = get_or table i 0 in
    let len1 = bit_and e1 0xff in
    let e2 = get_or table (i / 2 ^ len1) 0 in
    let len2 = bit_and e2 0xff in
    if bit_and e1 huffdec_literal == 0
    then e1
    else if leb table_bits len1
    then e1
    else if not (bit_and e2 (bit_or huffdec_literal huffdec_double_literal) == huffdec_literal)
    then e1
    else if ltb table_bits (len1 + len2)
    then e1
    else bit_or
        (bit_or (bit_or (bit_or huffdec_literal huffdec_double_literal) (bit_and e1 0x00ff_0000))
          (bit_and (e2 / 2 ^ 8) 0xff00))
        (len1 + len2)

-- `for i in (0..size).rev()`, with the entries from `i` on done.
pub double_from : ℕ → List ℕ → ℕ → List ℕ
unfolding double_entry
double_from zero table table_bits = table
double_from (suc i) table table_bits =
    double_from i (set table i (double_entry table table_bits i)) table_bits

unfoldable pub add_double_literals : List ℕ → ℕ → List ℕ
unfolding double_from
add_double_literals table table_bits = double_from (2 ^ table_bits) table table_bits

-- `DOUBLE_LITERAL_MIN_INPUT`, outside of tests and fuzzing
abbrev pub double_literal_min_input : ℕ
double_literal_min_input = 16384

unfoldable pub wants_double_literals : ℕ → Bool
wants_double_literals remaining = leb double_literal_min_input remaining
