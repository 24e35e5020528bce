-- ===== src/Decompress/Tables/Build.antt =====
-- `build_decode_table` of src/decompress/mod.rs. Its counters and entries are u32 values.
use zenflate.Prelude.{
  ℕ, zero, suc, ◌+◌, ◌-◌, ◌*◌, ◌/◌, bit_and, bit_or, bit_xor, Bool, true, false, List, [], ◌∷◌,
  ◌++◌, length, take, drop, get_or, set, leb, ltb, ◌==◌, if◌then◌else◌,
}
use zenflate.Prelude.Words.{add32, shl32}
use zenflate.Outcome.{Outcome, ok, panic, out_of_fuel, read, store, ◌>>=◌}

-- What a call writes through its `&mut` arguments.
pub record Built : Type 0 where
  pub decode_table : List ℕ
  pub sorted_syms : List ℕ
  pub table_bits : ℕ

-- `31 - v.leading_zeros()`
unfoldable pub bsr_loop : ℕ → ℕ → ℕ
bsr_loop zero v = 0
bsr_loop (suc fuel) v = let rest = bsr_loop fuel (v / 2) in if ltb v 2 then 0 else suc rest

unfoldable pub bsr32 : ℕ → ℕ
unfolding bsr_loop
bsr32 v = bsr_loop 32 v

module _ {ℓ} {E : Type ℓ} where
  unfoldable pub make_decode_table_entry : List ℕ → ℕ → ℕ → Outcome E ℕ
  unfolding read
  make_decode_table_entry results sym len = do
    r ← read results sym
    ok (add32 (add32 r (shl32 len 8)) len)

  -- `len_counts[lens[i] as usize] += 1` for each symbol
  unfoldable pub count_lens : List ℕ → List ℕ → Outcome E (List ℕ)
  unfolding read store
  count_lens counts [] = ok counts
  count_lens counts (l ∷ lens) = do
    n ← read counts l
    counts' ← store counts l (add32 n 1)
    count_lens counts' lens

  -- `sorted_syms[offsets[l]] = sym; offsets[l] += 1` for each symbol
  unfoldable pub sort_syms :
      ℕ → List ℕ → List ℕ → List ℕ → Outcome E (record { offsets : List ℕ; sorted : List ℕ })
  unfolding read store
  sort_syms sym offsets sorted [] = ok (record { offsets = offsets; sorted = sorted })
  sort_syms sym offsets sorted (l ∷ lens) = do
    at ← read offsets l
    sorted' ← store sorted at sym
    offsets' ← store offsets l (add32 at 1)
    sort_syms (sym + 1) offsets' sorted' lens

-- `while max_codeword_len > 1 && len_counts[max_codeword_len] == 0`
unfoldable pub shrink_max : List ℕ → ℕ → ℕ
shrink_max counts zero = zero
shrink_max counts (suc zero) = suc zero
shrink_max counts (suc (suc m)) =
    let less = shrink_max counts (suc m) in
    if get_or counts (suc (suc m)) 0 == 0 then less else suc (suc m)

-- `offsets[len + 1] = offsets[len] + len_counts[len]` for `n` lengths from `len` on. The tables have
-- 16 entries and `len + 1` is at most 15.
unfoldable pub fill_offsets : ℕ → ℕ → List ℕ → List ℕ → List ℕ
fill_offsets zero len counts offsets = offsets
fill_offsets (suc n) len counts offsets =
    fill_offsets n (len + 1) counts
      (set offsets (len + 1) (add32 (get_or offsets len 0) (get_or counts len 0)))

-- `codespace_used = (codespace_used << 1) + len_counts[len]` for `n` lengths from `len` on
unfoldable pub use_codespace : ℕ → ℕ → List ℕ → ℕ → ℕ
use_codespace zero len counts used = used
use_codespace (suc n) len counts used =
    use_codespace n (len + 1) counts (add32 (shl32 used 1) (get_or counts len 0))

-- `decode_table.copy_within(0..end, end)`
unfoldable pub double_table {ℓ} : {E : Type ℓ} → List ℕ → ℕ → Outcome E (List ℕ)
double_table table end =
    if leb (end + end) (length table)
    then ok (take end table ++ (take end table ++ drop (end + end) table))
    else panic

-- The variables of the loops over the codewords of a complete code.
pub record Fill : Type 0 where
  pub table : List ℕ
  pub codeword : ℕ
  pub len : ℕ
  pub count : ℕ
  pub cur_table_end : ℕ
  pub sorted_pos : ℕ
  pub subtable_prefix : ℕ
  pub subtable_start : ℕ

-- The bit-reversed increment of a codeword below `end - 1`.
unfoldable pub next_codeword : ℕ → ℕ → ℕ
unfolding bsr32
next_codeword codeword end =
    let bit = shl32 1 (bsr32 (bit_xor codeword (end - 1))) in
    bit_or (bit_and codeword (bit - 1)) bit

-- `while len < table_bits` behind the last codeword
unfoldable pub double_rest {ℓ} : {E : Type ℓ} → ℕ → List ℕ → ℕ → Outcome E (List ℕ)
unfolding double_table
double_rest zero table end = ok table
double_rest (suc n) table end = do table' ← double_table table end; double_rest n table' (end * 2)

module _ {ℓ} {E : Type ℓ} (counts : List ℕ) (table_bits : ℕ) where
  -- On to the next length that has codewords. A length is at most 15.
  unfoldable pub next_len : ℕ → Fill → Outcome E Fill
  unfolding double_table read
  next_len zero f = out_of_fuel
  next_len (suc fuel) f =
      let len = f.len + 1 in
      do
        doubled ← (if leb len table_bits then double_table f.table f.cur_table_end else ok f.table)
        count ← read counts len
        let end = if leb len table_bits then f.cur_table_end * 2 else f.cur_table_end
        let f' = record f { table = doubled; len = len; count = count; cur_table_end = end }
        elim (count == 0) [ true ↦ next_len fuel f' | false ↦ ok f' ]

  module _ (results : List ℕ) (sorted : List ℕ) where
    -- `while len <= table_bits`, a codeword a round: the table when the last codeword is reached,
    -- or the variables for the subtables.
    unfoldable pub fill_main : ℕ → Fill → Outcome E (record { done : Bool; fill : Fill })
    unfolding make_decode_table_entry read store double_rest next_codeword next_len
    fill_main zero f = out_of_fuel
    fill_main (suc fuel) f = elim (leb f.len table_bits) [
      | false ↦ ok (record { done = false; fill = f })
      | true ↦ do
        sym ← read sorted f.sorted_pos
        entry ← make_decode_table_entry results sym f.len
        table ← store f.table f.codeword entry
        elim (f.codeword == f.cur_table_end - 1) [
          | true ↦ do
            full ← double_rest (table_bits - f.len) table f.cur_table_end
            ok (record { done = true; fill = record f { table = full } })
          | false ↦
              let f' = record f {
                table = table;
                codeword = next_codeword f.codeword f.cur_table_end;
                count = f.count - 1;
                sorted_pos = f.sorted_pos + 1;
              } in
              elim (f'.count == 0) [
                | true ↦ do f'' ← next_len 16 f'; fill_main fuel f''
                | false ↦ fill_main fuel f'
              ]
        ]
    ]
