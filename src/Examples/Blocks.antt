-- ===== src/Examples/Blocks.antt =====
-- The theorems on src/compress/block_split.rs and src/compress/huffman.rs at concrete inputs.
use zenflate.Prelude.{ℕ, ◌+◌, ◌%◌, ◌^◌, ◌≤◌, ◌<◌, List, [], ◌∷◌, get_or, arith, ◌≡◌, ◌≢◌, ◌⊎◌, refl}
use zenflate.Outcome.{ok}
use zenflate.Compress.BlockSplit.{new, differs, input_block_end}
use zenflate.Compress.BlockSplit.Counts.{
  Observation, literal, matched, block_check, observe_all, observe_all-Counted,
}
use zenflate.Compress.BlockSplit.Exact.{differs_exactly, differs-exact}
use zenflate.Compress.BlockSplit.Progress.{input_block_end-progress}
use zenflate.Compress.Huffman.{
  reverse_codeword, canonical_codewords, assign_codewords, bitreverse_tab, first_codewords,
  count_lens,
}
use zenflate.Compress.Huffman.Reverse.{reverse_bits, reverse_codeword-exact}
use zenflate.Compress.Huffman.Prefix.{canonical_codewords-IsPrefix}

abbrev calls : List Observation
calls = literal 200 ∷ matched 12 ∷ block_check 3 ∷ literal 7 ∷ []

differs-exact_example :
    differs (observe_all new calls) 6000 ≡ differs_exactly (observe_all new calls) 6000
differs-exact_example =
    differs-exact 4 (observe_all new calls) 6000
      (observe_all-Counted calls (omega arith, (tt, (tt, (omega arith, tt)))) (omega arith))
      (omega arith) (omega arith)

input_block_end-progress_example :
    (r : ℕ) × (input_block_end {E = ℕ} (5 ∷ 6 ∷ 6 ∷ []) 1 3 10 ≡ ok r)
    × (1 < r)
    × (r ≤ 3)
    × (r ≤ 1 + 10 + 5000)
    × ((r ≡ 3) ⊎ (r ≡ 1 + 10) ⊎ (1 + 5000 ≤ r) × (r + 5000 ≤ 3))
input_block_end-progress_example =
    input_block_end-progress ℕ (5 ∷ 6 ∷ 6 ∷ []) 1 3 10 (omega arith) (omega arith) (omega arith)
      (omega arith) (omega arith)

reverse_codeword-exact_example : reverse_codeword 6 4 ≡ reverse_bits 4 6
reverse_codeword-exact_example = reverse_codeword-exact 6 4 (omega arith) (omega arith)

-- The code of three symbols with the lengths 1, 2 and 2.
abbrev lens : List ℕ
lens = 1 ∷ 2 ∷ 2 ∷ []

canonical_codewords-IsPrefix_example :
    get_or (canonical_codewords 3 lens (0 ∷ 0 ∷ 0 ∷ []) 15) 2 0 % 2 ^ 1
    ≢ get_or (canonical_codewords 3 lens (0 ∷ 0 ∷ 0 ∷ []) 15) 0 0
canonical_codewords-IsPrefix_example =
    canonical_codewords-IsPrefix lens (0 ∷ 0 ∷ 0 ∷ []) 15 0 2
      (omega arith, (omega arith, (omega arith, tt))) (omega arith) (omega arith) (omega arith)
      (omega arith) (omega arith) (omega arith) (omega arith) (omega arith) (omega arith)
      (omega arith)

lens-codewords : canonical_codewords 3 lens (0 ∷ 0 ∷ 0 ∷ []) 15 ≡ 0 ∷ 1 ∷ 3 ∷ []
unfolding canonical_codewords assign_codewords reverse_codeword bitreverse_tab first_codewords
    count_lens
lens-codewords = refl
