-- ===== src/Examples/Huffman.antt =====
-- The theorems on src/compress/huffman.rs and src/compress/block.rs at concrete inputs.
use zenflate.Compress.Slots.{
  get_offset_slot, offset_slot_small, offset_slots, fill_offsets, deflate_offset_base,
  deflate_offset_extra_bits,
}
use zenflate.Compress.Slots.Covers.{get_offset_slot-Covers}
use zenflate.Prelude.{
  ℕ, zero, suc, false, ◌+◌, ◌-◌, ◌%◌, ◌^◌, ◌<◌, ◌≤◌, List, [], ◌∷◌, ◌++◌, get_or, replicate, All,
  All-append, arith, ◌≡◌, ◌≢◌, refl,
}
use zenflate.Outcome.{ok, ◌>>=◌, read, store}
use zenflate.Bitstream.{OutputBitstream}
use zenflate.Bitstream.Value.{IsValid, size}
use zenflate.Bitstream.Fields.{Written}
use zenflate.Bitstream.Groups.{flat, IsGroup}
use zenflate.Compress.Huffman.{first_codewords, reverse_codeword, bitreverse_tab}
use zenflate.Compress.Huffman.Tree.{
  set_high, set_freq, add_freqs, two_leaves, two_nodes, join_leaves, join_nodes, join_both, join,
  join_all, build_tree, used_length, limit_depth, split_codeword, visit, visit_all, zero_counts,
  compute_length_counts,
}
use zenflate.Compress.Huffman.Tree.Words.{Kept}
use zenflate.Compress.Huffman.Tree.Parents.{Parents}
use zenflate.Compress.Huffman.Tree.Build.{build_tree-Parents}
use zenflate.Compress.Huffman.Tree.Complete.{IsComplete, tree_counts-IsComplete}
use zenflate.Compress.Huffman.Make.{
  bucket, count_freqs, cumulate, place, insert, sort_unstable, sort_range, sort_symbols, assign_run,
  assign_lengths, write_codewords, gen_codewords, make_huffman_code,
}
use zenflate.Compress.Huffman.Make.Sort.{Sorted, sort_symbols-Sorted}
use zenflate.Compress.Huffman.Make.Prefix.{Code, make_huffman_code-Code, make_huffman_code-IsPrefix}
use zenflate.Compress.Precode
use zenflate.Compress.Precode.{
  PrecodeFlags, emit, run_item, run_length, emit_runs, emit_lens, zero_runs, nonzero_runs, emit_run,
  items_loop, compute_precode_items_flagged, compute_precode_items, from_bits,
}
use zenflate.Compress.Precode.Expand.{Stands}
use zenflate.Compress.Precode.RoundTrip.{compute_precode_items_flagged-Stands}
use zenflate.Compress.Block.{
  DeflateCodes, DynamicHeader, trim, dynamic_header, write_dynamic_header_body, dynamic_header_bits,
  header_bits, add_symbol_bits,
}
use zenflate.Compress.Block.HeaderFields.{header_groups}
use zenflate.Compress.Block.HeaderBits.{IsCodes, write_dynamic_header_body-Written}

All-replicate : (n v : ℕ) → v < 16 → All (λ (l : ℕ). l < 16) (replicate n v)
All-replicate zero v h = tt
All-replicate (suc n) v h = (h, All-replicate n v h)

-- Five of six symbols are used.
abbrev freqs : List ℕ
freqs = 3 ∷ 1 ∷ 0 ∷ 9 ∷ 1 ∷ 7 ∷ []

abbrev old : List ℕ
old = replicate 6 0

make_huffman_code-Code_example :
    (r : List ℕ × List ℕ) × (make_huffman_code {E = ℕ} 6 3 freqs old old ≡ ok r) × Code 6 3 freqs r
make_huffman_code-Code_example =
    make_huffman_code-Code ℕ 6 3 freqs old old (omega arith) (omega arith) (omega arith)
      (omega arith) refl refl (omega arith)

abbrev made : List ℕ × List ℕ
made = (3 ∷ 4 ∷ 0 ∷ 1 ∷ 4 ∷ 2 ∷ [], 3 ∷ 7 ∷ 1024 ∷ 0 ∷ 15 ∷ 1 ∷ [])

make_huffman_code_run : make_huffman_code {E = ℕ} 6 15 freqs old old ≡ ok made
unfolding set_high set_freq add_freqs two_leaves two_nodes join_leaves join_nodes join_both join
    join_all build_tree used_length limit_depth split_codeword visit visit_all zero_counts
    compute_length_counts bucket count_freqs cumulate place insert sort_unstable sort_range
    sort_symbols assign_run assign_lengths write_codewords gen_codewords make_huffman_code read
    store first_codewords reverse_codeword bitreverse_tab
make_huffman_code_run = refl

-- The codeword 7 of the symbol 1 has four bits, and 3 of the symbol 0 has three.
make_huffman_code-IsPrefix_example : get_or made.1 1 0 % 2 ^ get_or made.0 0 0 ≢ get_or made.1 0 0
make_huffman_code-IsPrefix_example =
    make_huffman_code-IsPrefix ℕ 6 15 freqs old old made 0 1 (omega arith) (omega arith)
      (omega arith) (omega arith) refl refl (omega arith) make_huffman_code_run (omega arith)
      (omega arith) (omega arith) (omega arith) (omega arith)

sort_symbols-Sorted_example : Sorted 6 freqs (sort_symbols 6 freqs old old)
sort_symbols-Sorted_example =
    sort_symbols-Sorted 6 freqs old old (omega arith) (omega arith) refl refl (omega arith)

-- The entries of five symbols, by frequency.
abbrev entries : List ℕ
entries = 1025 ∷ 1028 ∷ 3072 ∷ 7173 ∷ 9219 ∷ []

build_tree-Parents_example :
    (tree : List ℕ) × (build_tree {E = ℕ} entries 5 ≡ ok tree)
    × Kept 0 entries tree
    × Parents (5 - 2) (5 - 1) tree
build_tree-Parents_example =
    build_tree-Parents ℕ entries 5 (omega arith) (omega arith) (omega arith)

tree_counts-IsComplete_example :
    (marked : List ℕ) × (counts : List ℕ) × ((build_tree {E = ℕ} entries 5
        >>= (λ tree. compute_length_counts tree (5 - 2) (replicate 16 0) 3))
      ≡ ok (marked, counts))
    × IsComplete 3 5 counts
    × Kept 0 entries marked
tree_counts-IsComplete_example =
    tree_counts-IsComplete ℕ entries 5 3 (replicate 16 0) (omega arith) (omega arith) (omega arith)
      (omega arith) (omega arith)

-- Seven lengths in a row, which one of the flags treats by itself, and runs of zeros.
abbrev seven : List ℕ
seven = replicate 7 5 ++ replicate 3 0

compute_precode_items_flagged-Stands_example :
    (w : Precode.Written) × (compute_precode_items_flagged {E = ℕ} seven (from_bits 31) ≡ ok w)
    × Stands seven w
compute_precode_items_flagged-Stands_example =
    compute_precode_items_flagged-Stands ℕ seven (from_bits 31)
      (All-append (λ (l : ℕ). l < 16) (replicate 7 5) (replicate 3 0)
        (All-replicate 7 5 (omega arith)) (All-replicate 3 0 (omega arith)))
      (omega arith)

-- The lengths of the static codes, in the header of a dynamic block.
abbrev codes : DeflateCodes
codes = record {
  codewords_litlen = replicate 288 0;
  codewords_offset = replicate 32 0;
  lens_litlen = replicate 144 8 ++ (replicate 112 9 ++ (replicate 24 7 ++ replicate 8 8));
  lens_offset = replicate 32 5;
}

codes-IsCodes : IsCodes codes
codes-IsCodes =
    let P = λ (l : ℕ). l < 16 in
    record {
      litlen_size = refl;
      offset_size = refl;
      litlen_short =
          All-append P (replicate 144 8) (replicate 112 9 ++ (replicate 24 7 ++ replicate 8 8))
            (All-replicate 144 8 (omega arith))
            (All-append P (replicate 112 9) (replicate 24 7 ++ replicate 8 8)
              (All-replicate 112 9 (omega arith))
              (All-append P (replicate 24 7) (replicate 8 8) (All-replicate 24 7 (omega arith))
                (All-replicate 8 8 (omega arith))));
      offset_short = All-replicate 32 5 (omega arith);
    }

abbrev header : DynamicHeader
header = record {
  num_litlen_syms = 288;
  num_offset_syms = 32;
  precode = record {
    precode_freqs = 0 ∷ 0 ∷ 0 ∷ 0 ∷ 0 ∷ 2 ∷ 0 ∷ 1 ∷ 3 ∷ 1 ∷ 0 ∷ 0 ∷ 0 ∷ 0 ∷ 0 ∷ 0 ∷ 53 ∷ 0 ∷ 0 ∷ [];
    items =
        8 ∷ 112 ∷ 112 ∷ 112 ∷ 112 ∷ 112 ∷ 112 ∷ 112 ∷ 112 ∷ 112 ∷ 112 ∷ 112 ∷ 112 ∷ 112 ∷ 112 ∷ 112
        ∷ 112 ∷ 112 ∷ 112 ∷ 112 ∷ 112 ∷ 112 ∷ 112 ∷ 112 ∷ 80 ∷ 9 ∷ 112 ∷ 112 ∷ 112 ∷ 112 ∷ 112 ∷ 112
        ∷ 112 ∷ 112 ∷ 112 ∷ 112 ∷ 112 ∷ 112 ∷ 112 ∷ 112 ∷ 112 ∷ 112 ∷ 112 ∷ 112 ∷ 16 ∷ 7 ∷ 112 ∷ 112
        ∷ 112 ∷ 80 ∷ 8 ∷ 112 ∷ 8 ∷ 5 ∷ 112 ∷ 112 ∷ 112 ∷ 112 ∷ 112 ∷ 5 ∷ [];
  };
  precode_lens = 0 ∷ 0 ∷ 0 ∷ 0 ∷ 0 ∷ 3 ∷ 0 ∷ 4 ∷ 2 ∷ 4 ∷ 0 ∷ 0 ∷ 0 ∷ 0 ∷ 0 ∷ 0 ∷ 1 ∷ 0 ∷ 0 ∷ [];
  precode_codewords =
      3079 ∷ 2057 ∷ 1029 ∷ 8 ∷ 54288 ∷ 3 ∷ 0 ∷ 7 ∷ 1 ∷ 15 ∷ 0 ∷ 0 ∷ 0 ∷ 0 ∷ 0 ∷ 0 ∷ 0 ∷ 0 ∷ 0 ∷ [];
  num_explicit_lens = 10;
}

dynamic_header_run : dynamic_header {E = ℕ} codes ≡ ok header
unfolding set_high set_freq add_freqs two_leaves two_nodes join_leaves join_nodes join_both join
    join_all build_tree used_length limit_depth split_codeword visit visit_all zero_counts
    compute_length_counts bucket count_freqs cumulate place insert sort_unstable sort_range
    sort_symbols assign_run assign_lengths write_codewords gen_codewords make_huffman_code read
    store first_codewords reverse_codeword bitreverse_tab emit run_item run_length emit_runs
    emit_lens zero_runs nonzero_runs emit_run items_loop compute_precode_items_flagged
    compute_precode_items trim dynamic_header
dynamic_header_run = refl

header_bits_run : header_bits header ≡ 223
unfolding header_bits add_symbol_bits
header_bits_run = refl

abbrev empty : OutputBitstream
empty = record { bitbuf = 0; bitcount = 0; pos = 0; buf = replicate 32 0; overflow = false }

empty-IsValid : IsValid empty
empty-IsValid = record { bits_fit = omega arith; count_le = omega arith; pos_le = omega arith }

write_dynamic_header_body-Written_example :
    (out : OutputBitstream) × (write_dynamic_header_body {E = ℕ} empty codes ≡ ok out)
    × Written empty (flat (header_groups header)) out
    × (dynamic_header_bits {E = ℕ} codes ≡ ok (header_bits header))
    × (size out ≡ size empty + header_bits header)
    × All IsGroup (header_groups header)
write_dynamic_header_body-Written_example =
    write_dynamic_header_body-Written ℕ empty codes header codes-IsCodes dynamic_header_run
      empty-IsValid (omega arith) (omega (arith, header_bits_run))

-- The slot of the offset 300, which is the far half of the table.
get_offset_slot-Covers_example :
    (get_offset_slot 300 < 30)
    × (get_or deflate_offset_base (get_offset_slot 300) 0 ≤ 300)
    × (300
        < get_or deflate_offset_base (get_offset_slot 300) 0
          + 2 ^ get_or deflate_offset_extra_bits (get_offset_slot 300) 0)
get_offset_slot-Covers_example = get_offset_slot-Covers 300 (omega arith) (omega arith)

-- The slots of the first and the last offset of the table, and of the format.
offset_slots_run :
    get_offset_slot 1 ∷ get_offset_slot 256 ∷ get_offset_slot 257 ∷ get_offset_slot 32768 ∷ []
    ≡ 0 ∷ 15 ∷ 16 ∷ 29 ∷ []
unfolding get_offset_slot offset_slot_small offset_slots fill_offsets
offset_slots_run = refl
