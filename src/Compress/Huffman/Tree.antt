-- ===== src/Compress/Huffman/Tree.antt =====
-- src/compress/huffman.rs: the Huffman tree over the sorted frequencies, built in place, and the
-- number of codewords of each length that it gives. An entry of `a` is a u32 with a symbol in its
-- low ten bits, and above them a frequency, then a parent's index, then a depth.
pub mod Words
pub mod Parents
pub mod Join
pub mod Build
pub mod Space
pub mod Depths
pub mod Walk
pub mod Counts
pub mod Complete
use zenflate.Prelude.{
  ℕ, zero, suc, ◌+◌, ◌-◌, ◌/◌, ◌^◌, bit_and, bit_or, List, [], ◌∷◌, ◌++◌, replicate, drop, length,
  Bool, true, false, not, ◌&&◌, ◌||◌, leb, ltb, ◌==◌, if◌then◌else◌,
}
use zenflate.Prelude.Words.{add32, sub32, shl32}
use zenflate.Outcome.{Outcome, ok, panic, out_of_fuel, ◌>>=◌, read, store}

abbrev pub num_symbol_bits : ℕ
num_symbol_bits = 10

abbrev pub symbol_mask : ℕ
symbol_mask = 0x3ff

abbrev pub freq_mask : ℕ
freq_mask = 0xfffffc00

module _ {ℓ} {E : Type ℓ} where
  -- `a[k] = (v << NUM_SYMBOL_BITS) | (a[k] & SYMBOL_MASK)`
  unfoldable pub set_high : List ℕ → ℕ → ℕ → Outcome E (List ℕ)
  set_high a k v = do
    x ← read a k
    store a k (bit_or (bit_and x symbol_mask) (shl32 v num_symbol_bits))

  -- `a[e] = new_freq | (a[e] & SYMBOL_MASK)`
  unfoldable pub set_freq : List ℕ → ℕ → ℕ → Outcome E (List ℕ)
  set_freq a e new_freq = do x ← read a e; store a e (bit_or (bit_and x symbol_mask) new_freq)

  -- `(a[i] & FREQ_MASK).wrapping_add(a[j] & FREQ_MASK)`
  unfoldable pub add_freqs : List ℕ → ℕ → ℕ → Outcome E ℕ
  add_freqs a i j = do
    x ← read a i
    y ← read a j
    ok (add32 (bit_and x freq_mask) (bit_and y freq_mask))

  -- The two conditions of the loop of `build_tree`, in the order of their tests.
  unfoldable pub two_leaves : List ℕ → ℕ → ℕ → ℕ → ℕ → Outcome E Bool
  two_leaves a last_idx i b e =
      if not (ltb i last_idx) then ok false else if b == e then ok true else (do
        x ← read a (i + 1)
        y ← read a b
        ok (leb (bit_and x freq_mask) (bit_and y freq_mask)))

  unfoldable pub two_nodes : List ℕ → ℕ → ℕ → ℕ → ℕ → Outcome E Bool
  two_nodes a last_idx i b e =
      if not (leb (b + 2) e) then ok false else if ltb last_idx i then ok true else (do
        x ← read a (b + 1)
        y ← read a i
        ok (ltb (bit_and x freq_mask) (bit_and y freq_mask)))

  -- The three ways to make a node: what `a` is then, with `i` and `b`.
  unfoldable pub join_leaves : List ℕ → ℕ → ℕ → ℕ → Outcome E (List ℕ × ℕ × ℕ)
  join_leaves a i b e = do
    new_freq ← add_freqs a i (i + 1)
    made ← set_freq a e new_freq
    ok (made, i + 2, b)

  unfoldable pub join_nodes : List ℕ → ℕ → ℕ → ℕ → Outcome E (List ℕ × ℕ × ℕ)
  join_nodes a i b e = do
    new_freq ← add_freqs a b (b + 1)
    first ← set_high a b e
    second ← set_high first (b + 1) e
    made ← set_freq second e new_freq
    ok (made, i, b + 2)

  unfoldable pub join_both : List ℕ → ℕ → ℕ → ℕ → Outcome E (List ℕ × ℕ × ℕ)
  join_both a i b e = do
    new_freq ← add_freqs a i b
    first ← set_high a b e
    made ← set_freq first e new_freq
    ok (made, i + 1, b + 1)

  unfoldable pub join : List ℕ → ℕ → ℕ → ℕ → ℕ → Outcome E (List ℕ × ℕ × ℕ)
  join a last_idx i b e = do
    leaves ← two_leaves a last_idx i b e
    if leaves then join_leaves a i b e else (do
      nodes ← two_nodes a last_idx i b e
      if nodes then join_nodes a i b e else join_both a i b e)

  -- The loop, with a round for each node.
  unfoldable pub join_all : ℕ → List ℕ → ℕ → ℕ → ℕ → ℕ → Outcome E (List ℕ)
  join_all zero a last_idx i b e = out_of_fuel
  join_all (suc fuel) a last_idx i b e = do
    (made, next_i, next_b) ← join a last_idx i b e
    if leb last_idx (e + 1) then ok made else join_all fuel made last_idx next_i next_b (e + 1)

  unfoldable pub build_tree : List ℕ → ℕ → Outcome E (List ℕ)
  build_tree a sym_count = join_all sym_count a (sym_count - 1) 0 0 0

  -- The search for the greatest length below `depth` that has a codeword. At zero the source
  -- subtracts one from zero.
  unfoldable pub used_length : List ℕ → ℕ → Outcome E ℕ
  used_length len_counts zero = panic
  used_length len_counts (suc depth) = do
    count ← read len_counts depth
    if not (count == 0) then ok depth else used_length len_counts depth

  unfoldable pub limit_depth : List ℕ → ℕ → ℕ → Outcome E ℕ
  limit_depth len_counts max_len depth =
      if leb max_len depth then used_length len_counts max_len else ok depth

  -- `len_counts[depth] -= 1; len_counts[depth + 1] += 2`
  unfoldable pub split_codeword : List ℕ → ℕ → Outcome E (List ℕ)
  split_codeword len_counts depth = do
    count ← read len_counts depth
    fewer ← store len_counts depth (sub32 count 1)
    deeper ← read fewer (depth + 1)
    store fewer (depth + 1) (add32 deeper 2)

  unfoldable pub visit : List ℕ → ℕ → ℕ → List ℕ → Outcome E (List ℕ × List ℕ)
  visit a node max_len len_counts = do
    x ← read a node
    above ← read a (x / 2 ^ num_symbol_bits)
    let depth = above / 2 ^ num_symbol_bits + 1
    marked ← set_high a node depth
    limited ← limit_depth len_counts max_len depth
    counts ← split_codeword len_counts limited
    ok (marked, counts)

  -- `for node in (0..root_idx).rev()`
  unfoldable pub visit_all : List ℕ → ℕ → ℕ → List ℕ → Outcome E (List ℕ × List ℕ)
  visit_all a zero max_len len_counts = ok (a, len_counts)
  visit_all a (suc node) max_len len_counts = do
    (marked, counts) ← visit a node max_len len_counts
    visit_all marked node max_len counts

  -- `for c in len_counts[..=max_len].iter_mut()`, with the check of the slice's end
  unfoldable pub zero_counts : List ℕ → ℕ → Outcome E (List ℕ)
  zero_counts len_counts max_len =
      if ltb max_len (length len_counts)
      then ok (replicate (max_len + 1) 0 ++ drop (max_len + 1) len_counts)
      else panic

  unfoldable pub compute_length_counts : List ℕ → ℕ → List ℕ → ℕ → Outcome E (List ℕ × List ℕ)
  compute_length_counts a root_idx len_counts max_codeword_len = do
    zeroed ← zero_counts len_counts max_codeword_len
    counts ← store zeroed 1 2
    x ← read a root_idx
    rooted ← store a root_idx (bit_and x symbol_mask)
    visit_all rooted root_idx max_codeword_len counts
