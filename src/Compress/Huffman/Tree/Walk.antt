-- ===== src/Compress/Huffman/Tree/Walk.antt =====
-- `compute_length_counts` of src/compress/huffman.rs: the state of the
-- loop over the nodes, and a round on it.
use zenflate.Prelude.{
  ℕ, zero, suc, ◌+◌, ◌-◌, ◌^◌, ◌≤◌, ◌<◌, List, length, get_or, set, arith, ◌≡◌, ◌∙◌, length-set,
  get_or-set, get_or-set_below,
}
use zenflate.Compress.Huffman.Tree.Words.{high, high_word}
use zenflate.Compress.Huffman.Tree.Space.{space, total, split_at, total-split, space-split}
use zenflate.Compress.Huffman.Tree.Depths.{Marked, mark-Marked, Level, Spare}

module _ (root max_len : ℕ) (par : ℕ → ℕ) where
  -- The nodes from `v` on are visited: the codewords are one more than the nodes, and fill the space.
  pub record Walk (v : ℕ) (a cs : List ℕ) : Type 0 where
    pub d : ℕ
    pub lo : ℕ
    pub p : ℕ
    pub f : ℕ
    pub level : Level root v d lo a
    pub spare : Spare max_len v d lo p f par a cs
    pub room : root < length a
    pub room_counts : max_len < length cs
    pub intact : (k : ℕ) → k < v → high a k ≡ par k
    pub full : space max_len cs ≡ 2 ^ max_len
    pub codewords : total max_len cs + v ≡ root + 2
    pub no_empty : get_or cs 0 0 ≡ 0

  -- A codeword of the length `l` is there.
  unfoldable pub Taken : List ℕ → ℕ → ℕ → Type 0
  Taken cs l d = (l < max_len) × (0 < get_or cs l 0) × (d < max_len → l ≡ d)

  fewer_here :
      (cs : List ℕ) (d : ℕ) → d < length cs → get_or (split_at cs d) d 0 ≡ get_or cs d 0 - 1
  fewer_here cs d h =
      get_or-set_below (set cs d (get_or cs d 0 - 1)) (d + 1) d (get_or cs (d + 1) 0 + 2) 0
        (omega arith)
      ∙ get_or-set cs d (get_or cs d 0 - 1) 0 h

  more_below :
      (cs : List ℕ) (d : ℕ)
      → d + 1 < length cs
      → get_or (split_at cs d) (d + 1) 0 ≡ get_or cs (d + 1) 0 + 2
  more_below cs d h =
      get_or-set (set cs d (get_or cs d 0 - 1)) (d + 1) (get_or cs (d + 1) 0 + 2) 0
        (omega (arith, h, length-set cs d (get_or cs d 0 - 1)))

  module _ (u : ℕ) (a cs : List ℕ) (w : Walk (suc u) a cs) (d l : ℕ) (taken : Taken cs l d)
      (small : root < 2 ^ 22) (depth_le : d ≤ root) where
    unfoldable pub marked : List ℕ
    marked = set a u (high_word (get_or a u 0) d)

    pub fewer : d < max_len → get_or cs d 0 ≤ get_or (split_at cs l) d 0 + 1
    unfolding Taken
    fewer h =
        let e = taken.2 h in rw e (omega (arith, fewer_here cs d (omega (arith, h, w.room_counts))))

    pub more : d < max_len → get_or cs (d + 1) 0 + 2 ≤ get_or (split_at cs l) (d + 1) 0
    unfolding Taken
    more h =
        let e = taken.2 h in rw e (omega (arith, more_below cs d (omega (arith, h, w.room_counts))))

    pub marks : Marked u d a marked
    unfolding marked
    marks = mark-Marked a u d (omega (arith, w.level.deep, w.room)) (omega (arith, depth_le, small))

    pub next-Walk :
        (lo p f : ℕ)
        → Level root u d lo marked
        → Spare max_len u d lo p f par marked (split_at cs l)
        → Walk u marked (split_at cs l)
    unfolding Taken
    next-Walk lo p f level spare =
        let (short, used, exact) = taken in
        let fewer_size = length-set cs l (get_or cs l 0 - 1) in
        let size = length-set (set cs l (get_or cs l 0 - 1)) (l + 1) (get_or cs (l + 1) 0 + 2) in
        record {
          d = d;
          lo = lo;
          p = p;
          f = f;
          level = level;
          spare = spare;
          room = omega (arith, w.room, marks.kept.size);
          room_counts = omega (arith, w.room_counts, size, fewer_size);
          intact = λ k h. marks.kept.below k h ∙ w.intact k (omega (arith, h));
          full = space-split max_len l cs short w.room_counts used ∙ w.full;
          codewords = omega (arith, w.codewords, total-split max_len l cs short w.room_counts used);
          no_empty =
              let pos : 0 < l = positive l cs used w.no_empty in
              get_or-set_below (set cs l (get_or cs l 0 - 1)) (l + 1) 0 (get_or cs (l + 1) 0 + 2) 0
                (omega arith)
              ∙ get_or-set_below cs l 0 (get_or cs l 0 - 1) 0 pos
              ∙ w.no_empty;
        }
      where
        positive : (i : ℕ) (xs : List ℕ) → 0 < get_or xs i 0 → get_or xs 0 0 ≡ 0 → 0 < i
        positive zero xs h z = absurd (omega (arith, h, z))
        positive (suc i) xs h z = omega arith
