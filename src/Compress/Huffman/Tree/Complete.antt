-- ===== src/Compress/Huffman/Tree/Complete.antt =====
-- `build_tree` and `compute_length_counts` of src/compress/huffman.rs, one after the other.
use zenflate.Prelude.{
  ℕ, zero, suc, ◌+◌, ◌-◌, ◌*◌, ◌/◌, ◌%◌, ◌^◌, ◌≤◌, ◌<◌, bit_and, List, ◌++◌, length, get_or, set,
  drop, replicate, ltb, lt→ltb, arith, ◌≡◌, refl, ap, ◌∙◌, inl, inr, Bool-cases, ltb→lt, ltb→ge,
  length-set, length-append, length-replicate, get_or-set, get_or-set_below,
}
use mathlib.Core.Path.{subst}
use zenflate.Prelude.Arith.{two_pow_suc}
use zenflate.Prelude.Bits.{bit_and_mask}
use zenflate.Outcome.{ok, ◌>>=◌}
use zenflate.Decompress.Output.Fast.{read-ok}
use zenflate.Compress.Huffman.Tree.{symbol_mask, build_tree, zero_counts, compute_length_counts}
use zenflate.Compress.Huffman.Tree.Words.{high, Kept, Kept-trans, set-Kept, store-ok}
use zenflate.Compress.Huffman.Tree.Parents.{Parents}
use zenflate.Compress.Huffman.Tree.Build.{build_tree-Parents}
use zenflate.Compress.Huffman.Tree.Space.{space, total, space-set, total-set, get_or-total}
use zenflate.Compress.Huffman.Tree.Walk.{Walk}
use zenflate.Compress.Huffman.Tree.Counts.{visit_all-ok}

all_ordered :
    (root e : ℕ) (a : List ℕ)
    → Parents root e a
    → (d k : ℕ) → d + k < root
    → high a k ≤ high a (d + k)
all_ordered root e a tree zero k h = let z : 0 + k ≡ k = omega arith in omega (arith, ap (high a) z)
all_ordered root e a tree (suc d) k h =
    let z : suc d + k ≡ d + k + 1 = omega arith in
    omega (
      arith,
      ap (high a) z,
      tree.ordered (d + k) (omega (arith, h)),
      all_ordered root e a tree d k (omega (arith, h)),
    )

ordered_upto :
    (root e : ℕ) (a : List ℕ)
    → Parents root e a
    → (k j : ℕ) → k ≤ j
    → j < root
    → high a k ≤ high a j
ordered_upto root e a tree k j h g =
    let z : j - k + k ≡ j = omega (arith, h) in
    omega (arith, ap (high a) z, all_ordered root e a tree (j - k) k (omega (arith, h, g)))

space-zeros : (k : ℕ) (cs : List ℕ) → space k (replicate (k + 1) 0 ++ cs) ≡ 0
space-zeros k cs = let e : k + 1 ≡ suc k = omega arith in rw e (from_suc k)
  where
    from_suc : (n : ℕ) → space n (replicate (suc n) 0 ++ cs) ≡ 0
    from_suc zero = refl
    from_suc (suc n) = omega (arith, from_suc n)

total-zeros : (k : ℕ) (cs : List ℕ) → total k (replicate (k + 1) 0 ++ cs) ≡ 0
total-zeros k cs = let e : k + 1 ≡ suc k = omega arith in rw e (from_suc k)
  where
    from_suc : (n : ℕ) → total n (replicate (suc n) 0 ++ cs) ≡ 0
    from_suc zero = refl
    from_suc (suc n) = omega (arith, from_suc n)

-- The lengths before the walk: two codewords of one bit.
abbrev zeros : ℕ → List ℕ → List ℕ
zeros max_len len_counts = replicate (max_len + 1) 0 ++ drop (max_len + 1) len_counts

module _ (max_len : ℕ) (len_counts : List ℕ) (least : 1 ≤ max_len) where
  size-zeros : max_len < length (zeros max_len len_counts)
  size-zeros = omega (
    arith,
    length-append (replicate (max_len + 1) 0) (drop (max_len + 1) len_counts),
    length-replicate {A = ℕ} (max_len + 1) 0,
  )

  no_codeword : (i : ℕ) → i ≤ max_len → get_or (zeros max_len len_counts) i 0 ≡ 0
  no_codeword i h = omega (
    arith,
    get_or-total max_len i (zeros max_len len_counts) h,
    total-zeros max_len (drop (max_len + 1) len_counts),
  )

  space-start : space max_len (set (zeros max_len len_counts) 1 2) ≡ 2 ^ max_len
  space-start =
      let e : max_len ≡ suc (max_len - 1) = omega (arith, least) in
      let twice : 2 ^ max_len ≡ 2 * 2 ^ (max_len - 1) =
        ap (λ (t : ℕ). 2 ^ t) e ∙ two_pow_suc (max_len - 1) in
      omega (
        arith,
        twice,
        space-set max_len 1 2 (zeros max_len len_counts) least (omega (arith, size-zeros, least)),
        space-zeros max_len (drop (max_len + 1) len_counts),
        ap (λ (t : ℕ). t * 2 ^ (max_len - 1)) (no_codeword 1 least),
      )

  total-start : total max_len (set (zeros max_len len_counts) 1 2) ≡ 2
  total-start = omega (
    arith,
    total-set max_len 1 2 (zeros max_len len_counts) least (omega (arith, size-zeros, least)),
    total-zeros max_len (drop (max_len + 1) len_counts),
    no_codeword 1 least,
  )

-- The walk starts at the root.
start-Walk :
    (root max_len : ℕ) (a b len_counts : List ℕ)
    → 1 ≤ max_len
    → root < length a
    → Kept root a b
    → high b root ≡ 0
    → ((k : ℕ) → k < root → high a k ≤ root)
    → ((k : ℕ) → k + 2 < root → high a k < root)
    → Walk root max_len (high a) root b (set (zeros max_len len_counts) 1 2)
start-Walk root max_len a b len_counts least room kept top bound inner =
    let counts = set (zeros max_len len_counts) 1 2 in
    let size = length-set (zeros max_len len_counts) 1 2 in
    record {
      d = 0;
      lo = root + 1;
      p = root;
      f = 2;
      level = record {
        here = λ k h g. let e : k ≡ root = omega (arith, h, g) in rw e top;
        earlier = λ k h g. absurd (omega (arith, h, g));
        inside = omega arith;
        top = omega arith;
        deep = omega arith;
      };
      spare = record {
        near = λ k h g. omega arith;
        before = bound;
        few = λ k h g. elim (Bool-cases (ltb (k + 2) root)) [
          | inl t ↦ absurd (omega (arith, g, inner k (ltb→lt (k + 2) root t)))
          | inr t ↦ ltb→ge (k + 2) root t
        ];
        slots = λ h. omega arith;
        next = λ h. omega (
          arith,
          get_or-set (zeros max_len len_counts) 1 2 0
              (omega (arith, size-zeros max_len len_counts least, least)),
        );
      };
      room = omega (arith, room, kept.size);
      room_counts = omega (arith, size, size-zeros max_len len_counts least);
      intact = kept.below;
      full = space-start max_len len_counts least;
      codewords = omega (arith, total-start max_len len_counts least);
      no_empty =
          get_or-set_below (zeros max_len len_counts) 1 0 2 0 (omega arith)
          ∙ no_codeword max_len len_counts least 0 (omega arith);
    }

-- The lengths are those of a complete code: the codewords of the counts fill the code space, and
-- there is one for each symbol.
abbrev pub IsComplete : ℕ → ℕ → List ℕ → Type 0
IsComplete max_len sym_count counts =
    (space max_len counts ≡ 2 ^ max_len)
    × (total max_len counts ≡ sym_count)
    × (get_or counts 0 0 ≡ 0)

zero_counts-ok {ℓ} :
    (E : Type ℓ) (len_counts : List ℕ) (max_len : ℕ)
    → max_len < length len_counts
    → zero_counts {E = E} len_counts max_len ≡ ok (zeros max_len len_counts)
unfolding zero_counts
zero_counts-ok E len_counts max_len h = rw (lt→ltb max_len (length len_counts) h) refl

-- `len_counts` holds a count for each length up to `max_codeword_len`, and there are enough
-- codewords of these lengths. The nodes below the root have parents, as `build_tree` leaves them.
-- Then the call succeeds, and the counts are those of a complete code with two symbols more than
-- `root_idx`.
pub compute_length_counts-IsComplete :
    (E : Type 0) (a : List ℕ) (root_idx max_codeword_len : ℕ) (len_counts : List ℕ)
    → root_idx < length a
    → max_codeword_len < length len_counts
    → root_idx + 2 < 2 ^ 22
    → root_idx + 2 ≤ 2 ^ max_codeword_len
    → Parents root_idx (root_idx + 1) a
    → (marked : List ℕ) × (counts : List ℕ) × (compute_length_counts {E = E} a root_idx len_counts
          max_codeword_len
        ≡ ok (marked, counts))
      × IsComplete max_codeword_len (root_idx + 2) counts
      × Kept 0 a marked
unfolding compute_length_counts
compute_length_counts-IsComplete E a root max_len len_counts room size small fits tree =
    let least : 1 ≤ max_len = at_least_one max_len fits in
    let v = bit_and (get_or a root 0) symbol_mask in
    let low : v ≡ get_or a root 0 % 1024 = bit_and_mask 10 (get_or a root 0) in
    let b = set a root v in
    let kept = set-Kept a root v room (omega (arith, low)) in
    let top : high b root ≡ 0 =
      ap (λ (t : ℕ). t / 1024) (get_or-set a root v 0 room) ∙ omega (arith, low) in
    let walk =
      start-Walk root max_len a b len_counts least room kept top
        (λ k h. omega (arith, tree.bound k h))
        (λ k h. omega (arith, tree.two k h, tree.bound (k + 2) h)) in
    let counts = set (zeros max_len len_counts) 1 2 in
    let (marked, result, eq, end, rest) =
      visit_all-ok root max_len (high a) fits small tree.above
        (λ k h. omega (arith, tree.bound k h)) (ordered_upto root (root + 1) a tree)
        (λ k j h g. omega (
          arith,
          tree.two k (omega (arith, h, g)),
          ordered_upto root (root + 1) a tree (k + 2) j h g,
        ))
        E root b counts walk in
    (
      marked,
      result,
      rw
          (
            zero_counts-ok E len_counts max_len size,
            store-ok E (zeros max_len len_counts) 1 2
                (omega (arith, least, size-zeros max_len len_counts least)),
            read-ok E a root room,
            store-ok E a root v room,
          )
          eq,
      (end.full, omega (arith, end.codewords), end.no_empty),
      Kept-trans 0 root 0 a b marked (omega arith) (omega arith) kept rest,
    )
  where
    at_least_one : (k : ℕ) → root + 2 ≤ 2 ^ k → 1 ≤ k
    at_least_one zero h = absurd (omega (arith, h))
    at_least_one (suc k) h = omega arith

-- From the entries of at least two symbols, fewer than 2 ^ 22 and no more than there are
-- codewords of the longest length, with a place in `len_counts` for each length up to it, `build_tree`
-- and then `compute_length_counts` succeed. The counts fill the code space, with a codeword for each
-- symbol and none of length zero, and the low bits of the entries, which hold the symbols, stay.
pub tree_counts-IsComplete :
    (E : Type 0) (a : List ℕ) (sym_count max_codeword_len : ℕ) (len_counts : List ℕ)
    → 2 ≤ sym_count
    → sym_count ≤ length a
    → max_codeword_len < length len_counts
    → sym_count < 2 ^ 22
    → sym_count ≤ 2 ^ max_codeword_len
    → (marked : List ℕ) × (counts : List ℕ) × ((build_tree {E = E} a sym_count
          >>= (λ tree. compute_length_counts tree (sym_count - 2) len_counts max_codeword_len))
        ≡ ok (marked, counts))
      × IsComplete max_codeword_len sym_count counts
      × Kept 0 a marked
tree_counts-IsComplete E a n max_len len_counts two room size small fits =
    let (tree, eq, kept, parents) = build_tree-Parents E a n two room (omega (arith, small)) in
    let root : n - 2 + 2 ≡ n = omega (arith, two) in
    let top : n - 1 ≡ n - 2 + 1 = omega (arith, two) in
    let (marked, counts, eq2, complete, rest) =
      compute_length_counts-IsComplete E tree (n - 2) max_len len_counts
        (omega (arith, two, room, kept.size)) size (omega (arith, root, small))
        (omega (arith, root, fits)) (subst (λ (t : ℕ). Parents (n - 2) t tree) top parents) in
    (
      marked,
      counts,
      rw eq eq2,
      subst (λ (t : ℕ). IsComplete max_len t counts) root complete,
      Kept-trans 0 0 0 a tree marked (omega arith) (omega arith) kept rest,
    )
