-- ===== src/Compress/Huffman/Tree/Counts.antt =====
-- `compute_length_counts` of src/compress/huffman.rs: every node takes a codeword that there is, and
-- the lengths make a complete code.
use zenflate.Prelude.{
  ℕ, zero, suc, ◌+◌, ◌^◌, ◌≤◌, ◌<◌, List, length, get_or, set, leb, arith, ◌≡◌, refl, inl, inr,
  Bool-cases, leb→le, leb→gt,
}
use zenflate.Outcome.{ok}
use zenflate.Decompress.Output.Fast.{read-ok}
use zenflate.Compress.Huffman.Tree.{limit_depth, visit, visit_all}
use zenflate.Compress.Huffman.Tree.Words.{high, high_word, Kept, Kept-refl, Kept-trans, set_high-ok}
use zenflate.Compress.Huffman.Tree.Space.{
  split_at, space-longest, used_length-found, split_codeword-ok,
}
use zenflate.Compress.Huffman.Tree.Depths.{
  Marked, mark-Marked, Level, Level-same, Level-next, Spare, depth-cases,
}
use zenflate.Compress.Huffman.Tree.Depths
use zenflate.Compress.Huffman.Tree.Walk.{Walk, Taken, marked, marks, fewer, more, next-Walk}

module _ (root max_len : ℕ) (par : ℕ → ℕ) (fits : root + 2 ≤ 2 ^ max_len)
    (small : root + 2 < 2 ^ 22) (up : (k : ℕ) → k < root → k < par k)
    (bound : (k : ℕ) → k < root → par k ≤ root)
    (ordered : (k j : ℕ) → k ≤ j → j < root → par k ≤ par j)
    (two : (k j : ℕ) → k + 2 ≤ j → j < root → par k < par j) (E : Type 0) where
  limit-Taken :
      (u d : ℕ) (a cs : List ℕ)
      → Walk root max_len par (suc u) a cs
      → (d < max_len → 0 < get_or cs d 0)
      → (l : ℕ) × (limit_depth {E = E} cs max_len d ≡ ok l) × Taken root max_len par cs l d
  unfolding limit_depth Taken
  limit-Taken u d a cs w used = elim (Bool-cases (leb max_len d)) [
    | inr t ↦ let h = leb→gt max_len d t in (d, rw t refl, (h, used h, λ g. refl))
    | inl t ↦
        let h = leb→le max_len d t in
        elim (used_length-found E cs max_len (omega (arith, w.room_counts))) [
          | inl (l, eq, short, has) ↦ (l, rw t eq, (short, has, λ g. absurd (omega (arith, g, h))))
          | inr none ↦
              absurd (omega (arith, space-longest max_len cs none, w.full, w.codewords, fits))
        ]
  ]

  Next : ℕ → List ℕ → List ℕ → Type 0
  Next u a cs =
      (b : List ℕ) × (counts : List ℕ) × (visit {E = E} a u max_len cs ≡ ok (b, counts))
      × Walk root max_len par u b counts
      × Kept 0 a b

  visit-eq :
      (u d l : ℕ) (a cs : List ℕ) (w : Walk root max_len par (suc u) a cs)
      → high a (par u) + 1 ≡ d
      → limit_depth {E = E} cs max_len d ≡ ok l
      → Taken root max_len par cs l d
      → visit {E = E} a u max_len cs ≡ ok (set a u (high_word (get_or a u 0) d), split_at cs l)
  unfolding visit Taken
  visit-eq u d l a cs w e limit (short, used, exact) =
      let inside : u < root = omega (arith, w.level.deep) in
      let parent = w.intact u (omega arith) in
      let in_range : par u < length a = omega (arith, bound u inside, w.room) in
      rw
        (
          read-ok E a u (omega (arith, inside, w.room)),
          parent,
          read-ok E a (par u) in_range,
          e,
          set_high-ok E a u d (omega (arith, inside, w.room)),
          limit,
          split_codeword-ok E max_len l cs short w.room_counts used
              (omega (arith, w.codewords, small)),
        )
        refl

  -- A node that has its depth, its level and its spare codewords makes the next state.
  settle :
      (u d lo : ℕ) (a cs : List ℕ)
      → Walk root max_len par (suc u) a cs
      → high a (par u) + 1 ≡ d
      → d ≤ root
      → (d < max_len → 0 < get_or cs d 0)
      → ((b : List ℕ) → Marked u d a b → Level root u d lo b)
      → ((b counts : List ℕ)
          → Marked u d a b
          → (d < max_len → get_or cs d 0 ≤ get_or counts d 0 + 1)
          → (d < max_len → get_or cs (d + 1) 0 + 2 ≤ get_or counts (d + 1) 0)
          → (g : ℕ) × Spare max_len u d lo (par u) g par b counts)
      → Next u a cs
  unfolding Next marked
  settle u d lo a cs w e deep used level spare =
      let root_small : root < 2 ^ 22 = omega (arith, small) in
      let (l, limit, taken) = limit-Taken u d a cs w used in
      let b = marked root max_len par u a cs w d l taken root_small deep in
      let m = marks root max_len par u a cs w d l taken root_small deep in
      let (g, s) =
        spare b (split_at cs l) m (fewer root max_len par u a cs w d l taken root_small deep)
          (more root max_len par u a cs w d l taken root_small deep) in
      (
        b,
        split_at cs l,
        visit-eq u d l a cs w e limit taken,
        next-Walk root max_len par u a cs w d l taken root_small deep lo (par u) g (level b m) s,
        Kept-trans 0 0 u a a b (omega arith) (omega arith) (Kept-refl a 0) m.kept,
      )

  visit-ok : (u : ℕ) (a cs : List ℕ) → Walk root max_len par (suc u) a cs → Next u a cs
  visit-ok u a cs w =
      let inside : u < root = omega (arith, w.level.deep) in
      let order : (k : ℕ) → k ≤ u → par k ≤ par u = λ k h. ordered k u h inside in
      let pairs : (k : ℕ) → k + 2 ≤ u → par k < par u = λ k h. two k u h inside in
      let above = up u inside in
      elim (depth-cases root max_len u w.d w.lo w.p w.f par a cs w.level w.spare above
        (bound u inside)) [
          | inl (e, far) ↦
              settle u w.d w.lo a cs w e (omega (arith, w.level.deep))
                (Depths.same-used root max_len u w.d w.lo w.p w.f par a a cs pairs order w.level
                  w.spare above far)
                (λ b m. Level-same root u w.d w.lo a b w.level m)
                (λ b counts m.
                  Depths.Spare-same root max_len u w.d w.lo w.p w.f par a b cs pairs order w.level
                    w.spare above far counts m)
          | inr (e, close) ↦
              settle u (w.d + 1) (suc u) a cs w e (omega (arith, w.level.deep))
                (Depths.next-used root max_len u w.d w.lo w.p w.f par a a cs pairs order w.level
                  w.spare above close)
                (λ b m. Level-next root u w.d w.lo a b w.level m)
                (λ b counts m few more. (
                  1,
                  Depths.Spare-next root max_len u w.d w.lo w.p w.f par a b cs pairs order w.level
                      w.spare above close counts m few more,
                ))
        ]

  pub visit_all-ok :
      (v : ℕ) (a cs : List ℕ)
      → Walk root max_len par v a cs
      → (b : List ℕ) × (counts : List ℕ) × (visit_all {E = E} a v max_len cs ≡ ok (b, counts))
        × Walk root max_len par 0 b counts
        × Kept 0 a b
  unfolding visit_all Next
  visit_all-ok zero a cs w = (a, cs, refl, w, Kept-refl a 0)
  visit_all-ok (suc u) a cs w =
      let (b, counts, eq, next, kept) = visit-ok u a cs w in
      let (c, result, rest, end, kept_rest) = visit_all-ok u b counts next in
      (
        c,
        result,
        rw eq rest,
        end,
        Kept-trans 0 0 0 a b c (omega arith) (omega arith) kept kept_rest,
      )
