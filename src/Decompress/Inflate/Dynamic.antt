-- ===== src/Decompress/Inflate/Dynamic.antt =====
-- The header of a dynamic Huffman block.
use zenflate.Prelude.{
  ℕ, zero, suc, ◌+◌, ◌-◌, ◌/◌, ◌%◌, ◌^◌, bit_and, Bool, true, false, List, [], ◌∷◌, length, take,
  drop, get_or, set, replicate, leb, ltb, ◌==◌, if◌then◌else◌,
}
use zenflate.Prelude.Buffer.{write}
use zenflate.Outcome.{ok, panic, out_of_fuel, bad_data, read}
use zenflate.Decompress.Refill.{bitmask}
use zenflate.Decompress.Tables.{
  precode_tablebits, litlen_tablebits, offset_tablebits, max_pre_codeword_len, num_precode_syms,
  precode_lens_permutation, gen_precode_decode_results, gen_litlen_decode_results,
  gen_offset_decode_results, add_double_literals, wants_double_literals,
}
use zenflate.Decompress.Tables.Subtables.{build_decode_table}
use zenflate.Decompress.State.{
  Decompressor, Run, Exec, pure, fail, lift, gets, modify, ensure, ◌>>=◌, ◌>>◌, refill, skip_bits,
}

abbrev pub set_d : Run → Decompressor → Run
set_d s d = record s { d = d }

unfoldable pub zero_precode_lens : List ℕ → List ℕ → List ℕ
zero_precode_lens lens [] = lens
zero_precode_lens lens (perm ∷ perms) = zero_precode_lens (set lens perm 0) perms

module _ {ℓ} {R : Type ℓ} where
  -- `self.precode_lens[perm] = bitbuf & 7` for each index of the list
  unfoldable pub read_precode_lens : List ℕ → Exec R (Unit {0})
  unfolding skip_bits
  read_precode_lens [] = pure tt
  read_precode_lens (perm ∷ perms) = do
    b ← gets (λ s. s.bits.bitbuf)
    modify (λ s. set_d s (record s.d { precode_lens = set s.d.precode_lens perm (bit_and b 7) }))
    skip_bits 3
    read_precode_lens perms

  -- `self.lens[i..i + n].fill(v)`
  unfoldable pub fill_lens : ℕ → ℕ → ℕ → Exec R (Unit {0})
  unfolding write
  fill_lens i n v s =
      if leb (i + n) (length s.d.lens)
      then (ok tt, set_d s (record s.d { lens = write s.d.lens i (replicate n v) }))
      else (panic, s)

  -- `while i < total_syms`. A round decodes a length at least.
  unfoldable pub code_lens : List ℕ → ℕ → ℕ → ℕ → Exec R ℕ
  unfolding refill skip_bits fill_lens bitmask read
  code_lens input total zero i = lift out_of_fuel
  code_lens input total (suc fuel) i = elim (ltb i total) [
    | false ↦ pure i
    | true ↦ do
      left ← gets (λ s. s.bits.bitsleft)
      (if ltb left (max_pre_codeword_len + 7) then refill input else pure tt)
      b ← gets (λ s. s.bits.bitbuf)
      table ← gets (λ s. s.d.precode_decode_table)
      entry ← lift (read table (bit_and b (bitmask max_pre_codeword_len)))
      skip_bits (bit_and entry 0xff)
      let presym = entry / 2 ^ 16
      extra ← gets (λ s. s.bits.bitbuf)
      lens ← gets (λ s. s.d.lens)
      elim (ltb presym 16) [
        | true ↦ do fill_lens i 1 (presym % 256); code_lens input total fuel (i + 1)
        | false ↦ elim (presym == 16) [
          | true ↦ elim (i == 0) [
            | true ↦ fail bad_data
            | false ↦ do
              skip_bits 2
              fill_lens i 6 (get_or lens (i - 1) 0)
              code_lens input total fuel (i + (3 + bit_and extra 3))
          ]
          | false ↦ elim (presym == 17) [
            | true ↦ do
              skip_bits 3
              fill_lens i 10 0
              code_lens input total fuel (i + (3 + bit_and extra 7))
            | false ↦
                let n = 11 + bit_and extra (bitmask 7) in
                do skip_bits 7; fill_lens i n 0; code_lens input total fuel (i + n)
          ]
        ]
      ]
  ]

  unfoldable pub build_precode : Exec R (Unit {0})
  unfolding build_decode_table gen_precode_decode_results
  build_precode = do
    d ← gets (λ s. s.d)
    r ← lift (
        build_decode_table d.precode_decode_table d.precode_lens num_precode_syms
          gen_precode_decode_results precode_tablebits max_pre_codeword_len d.sorted_syms false)
    modify (λ s. set_d s (record s.d {
      precode_decode_table = r.built.decode_table;
      sorted_syms = r.built.sorted_syms;
    }))
    ensure r.success bad_data

  unfoldable pub build_offset : ℕ → ℕ → Exec R Bool
  unfolding build_decode_table gen_offset_decode_results
  build_offset from num = do
    d ← gets (λ s. s.d)
    r ← lift (
        build_decode_table d.offset_decode_table (drop from d.lens) num gen_offset_decode_results
          offset_tablebits 15 d.sorted_syms false)
    modify (λ s. set_d s (record s.d {
      offset_decode_table = r.built.decode_table;
      sorted_syms = r.built.sorted_syms;
    }))
    pure r.success

  unfoldable pub build_litlen : ℕ → Exec R Bool
  unfolding build_decode_table gen_litlen_decode_results
  build_litlen num = do
    d ← gets (λ s. s.d)
    r ← lift (
        build_decode_table d.litlen_decode_table d.lens num gen_litlen_decode_results
          litlen_tablebits 15 d.sorted_syms true)
    modify (λ s. set_d s (record s.d {
      litlen_decode_table = r.built.decode_table;
      sorted_syms = r.built.sorted_syms;
      litlen_tablebits = r.built.table_bits;
    }))
    pure r.success

  -- `self.litlen_doubles = wants_double_literals(…)`, and the entries if so
  unfoldable pub set_doubles : List ℕ → Exec R (Unit {0})
  unfolding add_double_literals wants_double_literals
  set_doubles input = modify (λ s.
      let wants = wants_double_literals (length input - s.bits.in_pos) in
      let table = add_double_literals s.d.litlen_decode_table s.d.litlen_tablebits in
      set_d s (record s.d {
        litlen_doubles = wants;
        litlen_decode_table = if wants then table else s.d.litlen_decode_table;
      }))

  unfoldable pub dynamic_block : List ℕ → Exec R (Unit {0})
  unfolding read_precode_lens zero_precode_lens build_precode code_lens build_offset build_litlen
      set_doubles
  dynamic_block input = do
    b ← gets (λ s. s.bits.bitbuf)
    let num_litlen = 257 + bit_and (b / 2 ^ 3) (bitmask 5)
    let num_offset = 1 + bit_and (b / 2 ^ 8) (bitmask 5)
    let num_explicit = 4 + bit_and (b / 2 ^ 13) (bitmask 4)
    modify (λ s. set_d s (record s.d {
      static_codes_loaded = false;
      precode_lens =
          set s.d.precode_lens (get_or precode_lens_permutation 0 0) (bit_and (b / 2 ^ 17) 7);
    }))
    skip_bits 20
    refill input
    read_precode_lens (take (num_explicit - 1) (drop 1 precode_lens_permutation))
    modify (λ s. set_d s (record s.d {
      precode_lens =
          zero_precode_lens s.d.precode_lens (drop num_explicit precode_lens_permutation);
    }))
    build_precode
    let total = num_litlen + num_offset
    i ← code_lens input total (total + 1) 0
    ensure (i == total) bad_data
    offset_built ← build_offset num_litlen num_offset
    ensure offset_built bad_data
    litlen_built ← build_litlen num_litlen
    ensure litlen_built bad_data
    set_doubles input
