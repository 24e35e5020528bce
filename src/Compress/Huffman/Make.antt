-- ===== src/Compress/Huffman/Make.antt =====
-- src/compress/huffman.rs: the symbols in the order of their frequencies, the codeword lengths, and
-- `make_huffman_code`. The lists are the slices that the caller passes; their indices are in bounds
-- where there are between 1 and 288 symbols, and the slices have an entry for each.
pub mod Put
pub mod Lengths
pub mod Buckets
pub mod Place
pub mod Fill
pub mod Count
pub mod Loop
pub mod Sort
pub mod Code
pub mod Codewords
pub mod Two
pub mod Prefix
use zenflate.Prelude.{
  ℕ, zero, suc, ◌+◌, ◌-◌, ◌*◌, ◌^◌, ◌%◌, min, bit_and, bit_or, List, [], ◌∷◌, ◌++◌, replicate, take,
  drop, get_or, set, ltb, leb, ◌==◌, ◌&&◌, not, if◌then◌else◌,
}
use zenflate.Prelude.Words.{add32, shl32}
use zenflate.Outcome.{Outcome, ok, ◌>>=◌}
use zenflate.Compress.Huffman.{deflate_max_codeword_len, reverse_codeword, first_codewords}
use zenflate.Compress.Huffman.Tree.{num_symbol_bits, symbol_mask, build_tree, compute_length_counts}

abbrev pub deflate_max_num_syms : ℕ
deflate_max_num_syms = 288

-- `let bucket = (freq as usize).min(num_counters - 1)`
unfoldable pub bucket : ℕ → ℕ → ℕ
bucket num_syms freq = min freq (num_syms - 1)

unfoldable pub count_freqs : ℕ → List ℕ → List ℕ → List ℕ
count_freqs num_syms counters [] = counters
count_freqs num_syms counters (freq ∷ freqs) =
    let b = bucket num_syms freq in
    count_freqs num_syms (set counters b (add32 (get_or counters b 0) 1)) freqs

-- The loop that makes the counters cumulative, over the counters from the second on.
unfoldable pub cumulate : List ℕ → ℕ → List ℕ × ℕ
cumulate [] num_used_syms = ([], num_used_syms)
cumulate (count ∷ counters) num_used_syms =
    let (rest, used) = cumulate counters (num_used_syms + count) in (num_used_syms ∷ rest, used)

-- `for sym in 0..num_syms`: the counters, the lengths and the entries.
unfoldable pub place : ℕ → ℕ → List ℕ → List ℕ → List ℕ → List ℕ → List ℕ × List ℕ × List ℕ
place num_syms sym [] counters lens symout = (counters, lens, symout)
place num_syms sym (freq ∷ freqs) counters lens symout =
    let b = bucket num_syms freq in
    let index = get_or counters b 0 in
    let used = not (freq == 0) in
    let next_counters = if used then set counters b (add32 index 1) else counters in
    let next_lens = if used then lens else set lens sym 0 in
    let next_symout =
      if used then set symout index (bit_or sym (shl32 freq num_symbol_bits)) else symout in
    place num_syms (sym + 1) freqs next_counters next_lens next_symout

-- `sort_unstable`, on numbers.
unfoldable pub insert : ℕ → List ℕ → List ℕ
insert x [] = x ∷ []
insert x (y ∷ ys) = if leb x y then x ∷ y ∷ ys else y ∷ insert x ys

unfoldable pub sort_unstable : List ℕ → List ℕ
sort_unstable [] = []
sort_unstable (x ∷ xs) = insert x (sort_unstable xs)

-- `symout[start..end].sort_unstable()`
unfoldable pub sort_range : ℕ → ℕ → List ℕ → List ℕ
sort_range start end symout =
    if ltb start end
    then take start symout ++ (sort_unstable (drop start (take end symout)) ++ drop end symout)
    else symout

-- The number of used symbols, the lengths and the entries.
unfoldable pub sort_symbols : ℕ → List ℕ → List ℕ → List ℕ → ℕ × List ℕ × List ℕ
sort_symbols num_syms freqs lens symout =
    let counted = count_freqs num_syms (replicate deflate_max_num_syms 0) (take num_syms freqs) in
    let (cumulative, num_used_syms) = cumulate (take (num_syms - 1) (drop 1 counted)) 0 in
    let counters = take 1 counted ++ (cumulative ++ drop num_syms counted) in
    let (ends, placed_lens, placed) = place num_syms 0 (take num_syms freqs) counters lens symout in
    let sorted =
      if leb 2 num_syms
      then sort_range (get_or ends (num_syms - 2) 0) (get_or ends (num_syms - 1) 0) placed
      else placed in
    (num_used_syms, placed_lens, sorted)

-- `while count > 0`: `count` symbols from the entry `i` on get the length `len`.
unfoldable pub assign_run : ℕ → ℕ → List ℕ → ℕ → List ℕ → List ℕ
assign_run zero len a i lens = lens
assign_run (suc count) len a i lens =
    assign_run count len a (i + 1) (set lens (bit_and (get_or a i 0) symbol_mask) len)

-- `for len in (1..=max_len).rev()`
unfoldable pub assign_lengths : ℕ → List ℕ → List ℕ → ℕ → List ℕ → List ℕ
assign_lengths zero len_counts a i lens = lens
assign_lengths (suc len) len_counts a i lens =
    let count = get_or len_counts (suc len) 0 in
    assign_lengths len len_counts a (i + count) (assign_run count (suc len) a i lens)

-- `for sym in 0..num_syms`; the codeword of a symbol without a length stays.
unfoldable pub write_codewords : List ℕ → List ℕ → List ℕ → List ℕ
write_codewords next [] a = a
write_codewords next (len ∷ lens) [] = []
write_codewords next (len ∷ lens) (x ∷ a) =
    let used = if ltb 0 len then set next len (add32 (get_or next len 0) 1) else next in
    (if ltb 0 len then reverse_codeword (get_or next len 0) len else x)
    ∷ write_codewords used lens a

-- The lengths and the codewords.
unfoldable pub gen_codewords : List ℕ → List ℕ → List ℕ → ℕ → ℕ → List ℕ × List ℕ
gen_codewords a lens len_counts max_codeword_len num_syms =
    let assigned = assign_lengths max_codeword_len len_counts a 0 lens in
    let next =
      first_codewords len_counts (max_codeword_len - 1) 2
        (replicate (deflate_max_codeword_len + 1) 0) in
    (assigned, write_codewords next (take num_syms assigned) a)

-- A code of two codewords of one bit, where at most one symbol is used.
unfoldable pub two_symbols : ℕ → ℕ → List ℕ → List ℕ → List ℕ × List ℕ
two_symbols num_syms nonzero_idx lens codewords =
    let lens = replicate num_syms 0 ++ drop num_syms lens in
    let codewords = replicate num_syms 0 ++ drop num_syms codewords in
    (set (set lens 0 1) nonzero_idx 1, set (set codewords 0 0) nonzero_idx 1)

-- The lengths and the codewords that the caller's slices hold after the call.
unfoldable pub make_huffman_code {ℓ} :
    {E : Type ℓ} → ℕ → ℕ → List ℕ → List ℕ → List ℕ → Outcome E (List ℕ × List ℕ)
make_huffman_code num_syms max_codeword_len freqs lens codewords =
    let (num_used_syms, placed_lens, a) = sort_symbols num_syms freqs lens codewords in
    let sym = if ltb 0 num_used_syms then bit_and (get_or a 0 0) symbol_mask else 0 in
    if ltb num_used_syms 2
    then ok (two_symbols num_syms (if not (sym == 0) then sym else 1) placed_lens a)
    else (do
      tree ← build_tree a num_used_syms
      (marked, len_counts) ←
          compute_length_counts tree (num_used_syms - 2)
            (replicate (deflate_max_codeword_len + 1) 0) max_codeword_len
      ok (gen_codewords marked placed_lens len_counts max_codeword_len num_syms))
