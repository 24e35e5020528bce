-- ===== src/Decompress/Tables/Subtables.antt =====
-- `build_decode_table` of src/decompress/mod.rs: the codewords longer than the main table's index,
-- and the whole function.
use zenflate.Prelude.{
  ℕ, zero, suc, ◌+◌, ◌-◌, ◌/◌, ◌^◌, min, bit_and, bit_or, Bool, true, false, ◌||◌, List, ◌++◌,
  length, take, drop, get_or, set, replicate, ltb, ◌==◌, not, if◌then◌else◌,
}
use zenflate.Prelude.Words.{add32, shl32}
use zenflate.Outcome.{Outcome, ok, out_of_fuel, read, store, ◌>>=◌}
use zenflate.Decompress.Tables.{huffdec_exceptional, huffdec_subtable_pointer}
use zenflate.Decompress.Tables.Build.{
  Built, Fill, make_decode_table_entry, count_lens, sort_syms, shrink_max, fill_offsets,
  use_codespace, next_codeword, fill_main,
}

-- `while i < cur_table_end`. The stride is at least 1, so a table's length of rounds is enough.
unfoldable pub fill_stride {ℓ} : {E : Type ℓ} → ℕ → List ℕ → ℕ → ℕ → ℕ → ℕ → Outcome E (List ℕ)
unfolding store
fill_stride zero table i end stride entry = out_of_fuel
fill_stride (suc fuel) table i end stride entry = elim (ltb i end) [
  | true ↦ do table' ← store table i entry; fill_stride fuel table' (i + stride) end stride entry
  | false ↦ ok table
]

-- `while codespace < (1 << subtable_bits)`: the index bits that hold the codewords of a prefix.
unfoldable pub size_subtable {ℓ} : {E : Type ℓ} → List ℕ → ℕ → ℕ → ℕ → ℕ → Outcome E ℕ
unfolding read
size_subtable counts table_bits zero subtable_bits codespace = out_of_fuel
size_subtable counts table_bits (suc fuel) subtable_bits codespace =
    elim (ltb codespace (shl32 1 subtable_bits)) [
      | false ↦ ok subtable_bits
      | true ↦ do
        n ← read counts (table_bits + (subtable_bits + 1))
        size_subtable counts table_bits fuel (subtable_bits + 1) (add32 (shl32 codespace 1) n)
    ]

-- `while count == 0`
unfoldable pub skip_lens {ℓ} : {E : Type ℓ} → List ℕ → ℕ → Fill → Outcome E Fill
unfolding read
skip_lens counts zero f = out_of_fuel
skip_lens counts (suc fuel) f = elim (f.count == 0) [
  | false ↦ ok f
  | true ↦ do
    count ← read counts (f.len + 1)
    skip_lens counts fuel (record f { len = f.len + 1; count = count })
]

-- Start a subtable where the codeword's low bits change.
unfoldable pub open_subtable {ℓ} : {E : Type ℓ} → List ℕ → ℕ → Fill → Outcome E Fill
unfolding size_subtable store
open_subtable counts table_bits f =
    let prefix = bit_and f.codeword (shl32 1 table_bits - 1) in
    elim (prefix == f.subtable_prefix) [
      | true ↦ ok f
      | false ↦ do
        bits ← size_subtable counts table_bits 16 (f.len - table_bits) f.count
        table ← store f.table prefix (
            bit_or
              (bit_or
                (bit_or (shl32 f.cur_table_end 16)
                  (bit_or huffdec_exceptional huffdec_subtable_pointer))
                (shl32 bits 8))
              table_bits)
        ok (record f {
          table = table;
          subtable_prefix = prefix;
          subtable_start = f.cur_table_end;
          cur_table_end = f.cur_table_end + shl32 1 bits;
        })
    ]

-- A codeword a round; there are `fuel` symbols at most.
unfoldable pub fill_subtables {ℓ} :
    {E : Type ℓ} → List ℕ → ℕ → List ℕ → List ℕ → ℕ → Fill → Outcome E (List ℕ)
unfolding open_subtable make_decode_table_entry read fill_stride skip_lens next_codeword
fill_subtables counts table_bits results sorted zero f = out_of_fuel
fill_subtables counts table_bits results sorted (suc fuel) f = do
  g ← open_subtable counts table_bits f
  sym ← read sorted g.sorted_pos
  entry ← make_decode_table_entry results sym (g.len - table_bits)
  table ←
      fill_stride (length g.table) g.table (g.subtable_start + g.codeword / 2 ^ table_bits)
        g.cur_table_end (shl32 1 (g.len - table_bits)) entry
  elim (g.codeword == shl32 1 g.len - 1) [
    | true ↦ ok table
    | false ↦ do
      h ← skip_lens counts 16 (record g {
        table = table;
        codeword = next_codeword g.codeword (shl32 1 g.len);
        count = g.count - 1;
        sorted_pos = g.sorted_pos + 1;
      })
      fill_subtables counts table_bits results sorted fuel h
  ]

-- `while len_counts[len] == 0` before the first codeword
unfoldable pub first_len : ℕ → ℕ → List ℕ → ℕ
first_len zero len counts = len
first_len (suc fuel) len counts =
    let more = first_len fuel (len + 1) counts in if get_or counts len 0 == 0 then more else len

-- Both fills of a complete code.
unfoldable pub fill_complete {ℓ} :
    {E : Type ℓ} → List ℕ → ℕ → List ℕ → List ℕ → List ℕ → ℕ → Outcome E (List ℕ)
unfolding first_len fill_main fill_subtables
fill_complete counts table_bits results sorted table skip_unused =
    let len = first_len 15 1 counts in
    do
      main ← fill_main counts table_bits results sorted (length sorted + 1) (record {
        table = table;
        codeword = 0;
        len = len;
        count = get_or counts len 0;
        cur_table_end = shl32 1 len;
        sorted_pos = skip_unused;
        subtable_prefix = 2 ^ 32 - 1;
        subtable_start = 0;
      })
      elim main.done [
        | true ↦ ok main.fill.table
        | false ↦
            fill_subtables counts table_bits results sorted (length sorted + 1)
              (record main.fill { cur_table_end = shl32 1 table_bits })
      ]

-- The count of the codewords, and what becomes of a code that is not complete: the whole table is
-- one entry if it has no codeword or one of length 1, and any other is refused.
pub data Code : Type 0 where
  overfull incomplete complete : Code
  single : ℕ → Code

unfoldable pub classify : ℕ → ℕ → List ℕ → List ℕ → ℕ → Code
classify used max_codeword_len counts sorted skip_unused =
    let full = shl32 1 max_codeword_len in
    if ltb full used
    then overfull
    else if not (ltb used full)
    then complete
    else if used == 0
    then single 0
    else if not (used == shl32 1 (max_codeword_len - 1)) || not (get_or counts 1 0 == 1)
    then incomplete
    else single (get_or sorted skip_unused 0)

-- `false` is a code that is refused. `wants_bits` says whether `table_bits_ret` is `Some`.
unfoldable pub build_decode_table {ℓ} :
    {E : Type ℓ}
    → List ℕ
    → List ℕ
    → ℕ
    → List ℕ
    → ℕ
    → ℕ
    → List ℕ
    → Bool
    → Outcome E (record { success : Bool; built : Built })
unfolding count_lens shrink_max fill_offsets use_codespace sort_syms classify fill_complete
    make_decode_table_entry
build_decode_table decode_table lens num_syms results table_bits max_len sorted_syms wants_bits = do
  counts ← count_lens (replicate 16 0) (take num_syms lens)
  let max_codeword_len = shrink_max counts max_len
  let bits = if wants_bits then min table_bits max_codeword_len else table_bits
  let offsets =
      fill_offsets (max_codeword_len - 1) 1 counts (set (replicate 16 0) 1 (get_or counts 0 0))
  let used = use_codespace max_codeword_len 1 counts 0
  s ← sort_syms 0 offsets sorted_syms (take num_syms lens)
  let built : List ℕ → Built =
      λ t. record { decode_table = t; sorted_syms = s.sorted; table_bits = bits }
  elim (classify used max_codeword_len counts s.sorted (get_or s.offsets 0 0)) [
    | overfull ↦ ok (record { success = false; built = built decode_table })
    | incomplete ↦ ok (record { success = false; built = built decode_table })
    | single sym ↦ do
      entry ← make_decode_table_entry results sym 1
      ok (record {
        success = true;
        built = built (replicate (2 ^ bits) entry ++ drop (2 ^ bits) decode_table);
      })
    | complete ↦ do
      table ← fill_complete counts bits results s.sorted decode_table (get_or s.offsets 0 0)
      ok (record { success = true; built = built table })
  ]
