-- ===== src/Compress/Huffman/Tree/Build.antt =====
-- `build_tree` of src/compress/huffman.rs: its rounds, and the tree that it leaves.
use zenflate.Prelude.{
  ℕ, zero, suc, ◌+◌, ◌-◌, ◌*◌, ◌^◌, ◌≤◌, ◌<◌, List, length, leb, ltb, arith, ◌≡◌, sym, refl, inl,
  inr, Bool-cases, ltb→lt, ltb→ge, leb→le, leb→gt,
}
use mathlib.Core.Path.{subst}
use zenflate.Outcome.{Outcome, ok}
use zenflate.Compress.Huffman.Tree.{join, join_all, build_tree}
use zenflate.Compress.Huffman.Tree.Words.{Kept, Kept-refl, Kept-trans}
use zenflate.Compress.Huffman.Tree.Parents.{Parents, Parents-empty, Parents-step}
use zenflate.Compress.Huffman.Tree.Join.{
  Joined, Result, join_leaves-ok, join_nodes-ok, join_both-ok, two_leaves-cases, two_nodes-cases,
}

module _ {ℓ} (E : Type ℓ) where
  -- The loop at the node `e`: the nodes and leaves that it took are two for each node that it made.
  record Building (last_idx : ℕ) (a : List ℕ) (i b e : ℕ) : Type 0 where
    pub taken : i + b ≡ 2 * e
    pub leaves : i ≤ last_idx + 1
    pub nodes : b ≤ e
    pub tree : Parents b e a

  Round : ℕ → List ℕ → ℕ → ℕ → ℕ → Type ℓ
  Round last_idx a i b e =
      (r : List ℕ × ℕ × ℕ) × (join {E = E} a last_idx i b e ≡ ok r)
      × Kept 0 a r.0
      × Building last_idx r.0 r.1 r.2 (e + 1)
      × (r.2 ≤ e)

  next-Round :
      (last_idx : ℕ) (a : List ℕ) (i b e j c : ℕ) (r : List ℕ × ℕ × ℕ)
      → join {E = E} a last_idx i b e ≡ ok r
      → Joined a b e j c r
      → j + c ≡ 2 * (e + 1)
      → j ≤ last_idx + 1
      → c ≤ e
      → c ≤ b + 2
      → Parents b e a
      → Round last_idx a i b e
  unfolding Round
  next-Round last_idx a i b e j c r eq v sum_eq leaves nodes few tree = (
    r,
    eq,
    Kept-trans 0 0 b a a r.0 (omega arith) (omega arith) (Kept-refl a 0) v.same,
    record {
      taken = omega (arith, v.next_leaf, v.next_node, sum_eq);
      leaves = omega (arith, v.next_leaf, leaves);
      nodes = omega (arith, v.next_node, nodes);
      tree = rw v.next_node (Parents-step b c e a r.0 tree few nodes v.same.below v.parent);
    },
    omega (arith, v.next_node, nodes),
  )

  join-ok :
      (last_idx : ℕ) (a : List ℕ) (i b e : ℕ)
      → last_idx < length a
      → e < last_idx
      → last_idx ≤ 2 ^ 22
      → Building last_idx a i b e
      → Round last_idx a i b e
  unfolding Result join
  join-ok last_idx a i b e h g small v =
      let sum_eq = v.taken in
      let le = v.nodes in
      elim (two_leaves-cases E a last_idx i b e h (omega (arith, v.nodes, g, h))) [
        | inl (t, inside) ↦
            let (r, eq, w) =
              join_leaves-ok E a i b e (omega (arith, inside, h)) (omega (arith, g, h)) v.nodes in
            next-Round last_idx a i b e (i + 2) b r (rw t eq) w (omega (arith, sum_eq))
              (omega (arith, inside)) v.nodes (omega arith) v.tree
        | inr (t, why) ↦ elim (two_nodes-cases E a last_idx i b e h (omega (arith, g, h))) [
          | inl (u, room) ↦
              let (r, eq, w) =
                join_nodes-ok E a i b e room (omega (arith, g, h)) (omega (arith, g, small)) in
              next-Round last_idx a i b e i (b + 2) r (rw (t, u) eq) w (omega (arith, sum_eq))
                v.leaves room (omega arith) v.tree
          | inr (u, whynot) ↦
              let below : b < e = elim why [
                | inl k ↦ omega (arith, k, sum_eq, g)
                | inr k ↦ elim (Bool-cases (ltb b e)) [
                  | inl z ↦ ltb→lt b e z
                  | inr z ↦ absurd (k (omega (arith, v.nodes, ltb→ge b e z)))
                ]
              ] in
              let leaf : i ≤ last_idx = elim whynot [
                | inl k ↦ omega (arith, k, sum_eq, g, below)
                | inr k ↦ k
              ] in
              let (r, eq, w) =
                join_both-ok E a i b e (omega (arith, leaf, h)) below (omega (arith, g, h))
                  (omega (arith, g, small)) in
              next-Round last_idx a i b e (i + 1) (b + 1) r (rw (t, u) eq) w (omega (arith, sum_eq))
                (omega (arith, leaf)) (omega (arith, below)) (omega arith) v.tree
        ]
      ]

  Built : ℕ → List ℕ → Outcome E (List ℕ) → Type ℓ
  Built last_idx a found =
      (made : List ℕ) × (found ≡ ok made) × Kept 0 a made × Parents (last_idx - 1) last_idx made

  join_all-ok :
      (fuel last_idx : ℕ) (a : List ℕ) (i b e : ℕ)
      → last_idx < length a
      → e < last_idx
      → last_idx ≤ e + fuel
      → last_idx ≤ 2 ^ 22
      → Building last_idx a i b e
      → Built last_idx a (join_all fuel a last_idx i b e)
  unfolding Built Round join_all
  join_all-ok zero last_idx a i b e h g enough small v = absurd (omega (arith, g, enough))
  join_all-ok (suc fuel) last_idx a i b e h g enough small v =
      let (r, eq, kept, next, nodes) = join-ok last_idx a i b e h g small v in
      elim (Bool-cases (leb last_idx (e + 1))) [
        | inl t ↦
            let all : e + 1 ≡ last_idx = omega (arith, g, leb→le last_idx (e + 1) t) in
            let nodes_eq : r.2 ≡ last_idx - 1 =
              omega (arith, next.taken, next.leaves, nodes, all) in
            (r.0, rw (eq, t) refl, kept, rw (sym nodes_eq, sym all) next.tree)
        | inr t ↦
            let more = leb→gt last_idx (e + 1) t in
            let (made, rest_eq, rest_kept, tree) =
              join_all-ok fuel last_idx r.0 r.1 r.2 (e + 1) (omega (arith, h, kept.size)) more
                (omega (arith, enough)) small next in
            (
              made,
              rw (eq, t) rest_eq,
              Kept-trans 0 0 0 a r.0 made (omega arith) (omega arith) kept rest_kept,
              tree,
            )
      ]

-- With at least two symbols the loop ends after a round for each node but the last leaf, and no
-- index is out of bounds. The symbols stay where they are, and the nodes below the root have parents.
pub build_tree-Parents {ℓ} :
    (E : Type ℓ) (a : List ℕ) (sym_count : ℕ)
    → 2 ≤ sym_count
    → sym_count ≤ length a
    → sym_count ≤ 2 ^ 22
    → (tree : List ℕ) × (build_tree {E = E} a sym_count ≡ ok tree)
      × Kept 0 a tree
      × Parents (sym_count - 2) (sym_count - 1) tree
unfolding build_tree Built
build_tree-Parents E a sym_count two room small =
    let e : sym_count - 1 - 1 ≡ sym_count - 2 = omega arith in
    let (tree, eq, kept, parents) =
      join_all-ok E sym_count (sym_count - 1) a 0 0 0 (omega (arith, two, room))
        (omega (arith, two)) (omega arith) (omega (arith, small))
        record {
          taken = omega arith;
          leaves = omega arith;
          nodes = omega arith;
          tree = Parents-empty 0 a;
        } in
    (tree, eq, kept, subst (λ (t : ℕ). Parents t (sym_count - 1) tree) e parents)
