-- ===== src/Compress/Huffman/Tree/Join.antt =====
-- `build_tree` of src/compress/huffman.rs: the two tests of a round, and the three ways to make a
-- node.
use zenflate.Prelude.{
  ℕ, ◌+◌, ◌/◌, ◌%◌, ◌^◌, ◌≤◌, ◌<◌, bit_and, bit_or, List, length, get_or, set, true, false, leb,
  ltb, ◌==◌, arith, ◌≡◌, ◌⊎◌, ◌≢◌, sym, refl, ap, ◌∙◌, inl, inr, Bool-cases, ltb→lt, ltb→ge, leb→le,
  leb→gt, ==_iff, get_or-set,
}
use zenflate.Prelude.Words.{add32}
use mathlib.Core.Bool.{true≢false}
use zenflate.Outcome.{Outcome, ok}
use zenflate.Decompress.Output.Fast.{read-ok}
use zenflate.Compress.Huffman.Tree.{
  freq_mask, set_high, set_freq, add_freqs, two_leaves, two_nodes, join_leaves, join_nodes,
  join_both,
}
use zenflate.Compress.Huffman.Tree.Words.{
  high, high_word, high_word-high, high_word-symbol, sum-low, freq_word-symbol, Kept, Kept-refl,
  Kept-trans, set-Kept, set_high-ok, set_freq-ok,
}

-- What a round makes of `a`: the nodes from `b` to `c` get the parent `e`, and the next leaf is `j`.
pub record Joined (a : List ℕ) (b e j c : ℕ) (r : List ℕ × ℕ × ℕ) : Type 0 where
  pub same : Kept b a r.0
  pub parent : (k : ℕ) → b ≤ k → k < c → high r.0 k ≡ e
  pub next_leaf : r.1 ≡ j
  pub next_node : r.2 ≡ c

module _ {ℓ} (E : Type ℓ) where
  add_freqs-ok :
      (a : List ℕ) (i j : ℕ)
      → i < length a
      → j < length a
      → (f : ℕ) × (add_freqs {E = E} a i j ≡ ok f) × (f % 1024 ≡ 0)
  unfolding add_freqs
  add_freqs-ok a i j h g = (
    add32 (bit_and (get_or a i 0) freq_mask) (bit_and (get_or a j 0) freq_mask),
    rw (read-ok E a i h, read-ok E a j g) refl,
    sum-low (get_or a i 0) (get_or a j 0),
  )

  -- A new frequency at `e`.
  freq-Kept :
      (a : List ℕ) (e f : ℕ)
      → e < length a
      → f % 1024 ≡ 0
      → (c : List ℕ) × (set_freq {E = E} a e f ≡ ok c) × Kept e a c
  freq-Kept a e f h z = (
    set a e (bit_or (bit_and (get_or a e 0) 0x3ff) f),
    set_freq-ok E a e f h,
    set-Kept a e (bit_or (bit_and (get_or a e 0) 0x3ff) f) h (freq_word-symbol (get_or a e 0) f z),
  )

  -- A new parent at `b`.
  pub high-Kept :
      (a : List ℕ) (b e : ℕ)
      → b < length a
      → e < 2 ^ 22
      → (c : List ℕ) × (set_high {E = E} a b e ≡ ok c) × Kept b a c × (high c b ≡ e)
  high-Kept a b e h small =
      let w = high_word (get_or a b 0) e in
      (
        set a b w,
        set_high-ok E a b e h,
        set-Kept a b w h (high_word-symbol (get_or a b 0) e small),
        ap (λ (t : ℕ). t / 1024) (get_or-set a b w 0 h) ∙ high_word-high (get_or a b 0) e small,
      )

  unfoldable pub Result : Outcome E (List ℕ × ℕ × ℕ) → List ℕ → ℕ → ℕ → ℕ → ℕ → Type ℓ
  Result found a b e j c = (r : List ℕ × ℕ × ℕ) × (found ≡ ok r) × Joined a b e j c r

  pub join_leaves-ok :
      (a : List ℕ) (i b e : ℕ)
      → i + 1 < length a
      → e < length a
      → b ≤ e
      → Result (join_leaves {E = E} a i b e) a b e (i + 2) b
  unfolding Result join_leaves
  join_leaves-ok a i b e h g le =
      let (f, sum-eq, low) = add_freqs-ok a i (i + 1) (omega (arith, h)) h in
      let (made, made-eq, kept) = freq-Kept a e f g low in
      (
        (made, i + 2, b),
        rw (sum-eq, made-eq) refl,
        record {
          same = Kept-trans b b e a a made (omega arith) le (Kept-refl a b) kept;
          parent = λ k l m. absurd (omega (arith, l, m));
          next_leaf = refl;
          next_node = refl;
        },
      )

  pub join_nodes-ok :
      (a : List ℕ) (i b e : ℕ)
      → b + 2 ≤ e
      → e < length a
      → e < 2 ^ 22
      → Result (join_nodes {E = E} a i b e) a b e i (b + 2)
  unfolding Result join_nodes
  join_nodes-ok a i b e le h small =
      let (f, sum-eq, low) =
        add_freqs-ok a b (b + 1) (omega (arith, le, h)) (omega (arith, le, h)) in
      let (one, one-eq, kept, at) = high-Kept a b e (omega (arith, le, h)) small in
      let (two, two-eq, kept2, at2) =
        high-Kept one (b + 1) e (omega (arith, le, h, kept.size)) small in
      let (made, made-eq, kept3) =
        freq-Kept two e f (omega (arith, h, kept.size, kept2.size)) low in
      let later =
        Kept-trans (b + 1) (b + 1) e one two made (omega arith) (omega (arith, le)) kept2 kept3 in
      let first : high made b ≡ e = later.below b (omega arith) ∙ at in
      let second : high made (b + 1) ≡ e = kept3.below (b + 1) (omega (arith, le)) ∙ at2 in
      (
        (made, i, b + 2),
        rw (sum-eq, one-eq, two-eq, made-eq) refl,
        record {
          same = Kept-trans b b (b + 1) a one made (omega arith) (omega arith) kept later;
          parent = λ k l m. elim (Bool-cases (k == b)) [
            | inl t ↦ let z : k ≡ b = (==_iff k b).0 t in rw z first
            | inr t ↦ let z : k ≡ b + 1 = ground (arith, l, m, t) in rw z second
          ];
          next_leaf = refl;
          next_node = refl;
        },
      )

  pub join_both-ok :
      (a : List ℕ) (i b e : ℕ)
      → i < length a
      → b < e
      → e < length a
      → e < 2 ^ 22
      → Result (join_both {E = E} a i b e) a b e (i + 1) (b + 1)
  unfolding Result join_both
  join_both-ok a i b e g le h small =
      let (f, sum-eq, low) = add_freqs-ok a i b g (omega (arith, le, h)) in
      let (one, one-eq, kept, at) = high-Kept a b e (omega (arith, le, h)) small in
      let (made, made-eq, kept2) = freq-Kept one e f (omega (arith, h, kept.size)) low in
      let first : high made b ≡ e = kept2.below b (omega (arith, le)) ∙ at in
      (
        (made, i + 1, b + 1),
        rw (sum-eq, one-eq, made-eq) refl,
        record {
          same = Kept-trans b b e a one made (omega arith) (omega (arith, le)) kept kept2;
          parent = λ k l m. let z : k ≡ b = omega (arith, l, m) in rw z first;
          next_leaf = refl;
          next_node = refl;
        },
      )

  -- What a test comes to, and what is known where it fails or holds.
  pub two_leaves-cases :
      (a : List ℕ) (last_idx i b e : ℕ)
      → last_idx < length a
      → b < length a
      → ((two_leaves {E = E} a last_idx i b e ≡ ok true) × (i < last_idx))
        ⊎ ((two_leaves {E = E} a last_idx i b e ≡ ok false) × ((last_idx ≤ i) ⊎ (b ≢ e)))
  unfolding two_leaves
  two_leaves-cases a last_idx i b e h g = elim (Bool-cases (ltb i last_idx)) [
    | inr t ↦ inr (rw t refl, inl (ltb→ge i last_idx t))
    | inl t ↦
        let inside = ltb→lt i last_idx t in
        elim (Bool-cases (b == e)) [
          | inl u ↦ inl (rw (t, u) refl, inside)
          | inr u ↦
              let apart : b ≢ e = λ z. true≢false (sym ((==_iff b e).1 z) ∙ u) in
              elim (Bool-cases
                (leb (bit_and (get_or a (i + 1) 0) freq_mask) (bit_and (get_or a b 0) freq_mask))) [
                  | inl v ↦ inl (
                    rw (t, u, read-ok E a (i + 1) (omega (arith, inside, h)), read-ok E a b g, v)
                        refl,
                    inside,
                  )
                  | inr v ↦ inr (
                    rw (t, u, read-ok E a (i + 1) (omega (arith, inside, h)), read-ok E a b g, v)
                        refl,
                    inr apart,
                  )
                ]
        ]
  ]

  pub two_nodes-cases :
      (a : List ℕ) (last_idx i b e : ℕ)
      → last_idx < length a
      → e < length a
      → ((two_nodes {E = E} a last_idx i b e ≡ ok true) × (b + 2 ≤ e))
        ⊎ ((two_nodes {E = E} a last_idx i b e ≡ ok false) × ((e < b + 2) ⊎ (i ≤ last_idx)))
  unfolding two_nodes
  two_nodes-cases a last_idx i b e h g = elim (Bool-cases (leb (b + 2) e)) [
    | inr t ↦ inr (rw t refl, inl (leb→gt (b + 2) e t))
    | inl t ↦
        let inside = leb→le (b + 2) e t in
        elim (Bool-cases (ltb last_idx i)) [
          | inl u ↦ inl (rw (t, u) refl, inside)
          | inr u ↦
              let in_range = ltb→ge last_idx i u in
              elim (Bool-cases
                (ltb (bit_and (get_or a (b + 1) 0) freq_mask) (bit_and (get_or a i 0) freq_mask))) [
                  | inl v ↦ inl (
                    rw
                        (
                          t,
                          u,
                          read-ok E a (b + 1) (omega (arith, inside, g)),
                          read-ok E a i (omega (arith, in_range, h)),
                          v,
                        )
                        refl,
                    inside,
                  )
                  | inr v ↦ inr (
                    rw
                        (
                          t,
                          u,
                          read-ok E a (b + 1) (omega (arith, inside, g)),
                          read-ok E a i (omega (arith, in_range, h)),
                          v,
                        )
                        refl,
                    inr in_range,
                  )
                ]
        ]
  ]
