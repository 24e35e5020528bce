-- ===== src/Compress/Huffman/Tree/Depths.antt =====
-- The walk of `compute_length_counts` of src/compress/huffman.rs from the root down: the depths of
-- the nodes from `v` on are known, and the deepest of them, those before `lo`, have the depth `d`.
use zenflate.Prelude.{
  ℕ, suc, ◌+◌, ◌-◌, ◌*◌, ◌/◌, ◌^◌, ◌≤◌, ◌<◌, List, length, get_or, set, ltb, ◌==◌, arith, ◌≡◌, ◌⊎◌,
  ap, ◌∙◌, inl, inr, Bool-cases, ltb→lt, ltb→ge, ==_iff, get_or-set, get_or-set_above,
}
use zenflate.Compress.Huffman.Tree.Words.{
  high, high_word, high_word-high, high_word-symbol, Kept, set-Kept,
}

-- The depth of the node `u` is written, and nothing else.
pub record Marked (u d : ℕ) (a b : List ℕ) : Type 0 where
  pub kept : Kept u a b
  pub at : high b u ≡ d
  pub above : (k : ℕ) → u < k → high b k ≡ high a k

pub mark-Marked :
    (a : List ℕ) (u d : ℕ)
    → u < length a
    → d < 2 ^ 22
    → Marked u d a (set a u (high_word (get_or a u 0) d))
mark-Marked a u d h small =
    let w = high_word (get_or a u 0) d in
    record {
      kept = set-Kept a u w h (high_word-symbol (get_or a u 0) d small);
      at = ap (λ (t : ℕ). t / 1024) (get_or-set a u w 0 h) ∙ high_word-high (get_or a u 0) d small;
      above = λ k l. ap (λ (t : ℕ). t / 1024) (get_or-set_above a u k w 0 l);
    }

pub record Level (root v d lo : ℕ) (a : List ℕ) : Type 0 where
  pub here : (k : ℕ) → v ≤ k → k < lo → high a k ≡ d
  pub earlier : (k : ℕ) → lo ≤ k → k ≤ root → high a k < d
  pub inside : v < lo
  pub top : lo ≤ root + 1
  pub deep : d + v ≤ root

module _ (root u d lo : ℕ) (a b : List ℕ) (w : Level root (suc u) d lo a) where
  pub Level-same : Marked u d a b → Level root u d lo b
  Level-same m = record {
    here = λ k g h. elim (Bool-cases (ltb u k)) [
      | inl t ↦ let l = ltb→lt u k t in m.above k l ∙ w.here k (omega (arith, l)) h
      | inr t ↦ let e : k ≡ u = omega (arith, g, ltb→ge u k t) in rw e m.at
    ];
    earlier = λ k g h. omega (arith, m.above k (omega (arith, g, w.inside)), w.earlier k g h);
    inside = omega (arith, w.inside);
    top = w.top;
    deep = omega (arith, w.deep);
  }

  pub Level-next : Marked u (d + 1) a b → Level root u (d + 1) (suc u) b
  Level-next m = record {
    here = λ k g h. let e : k ≡ u = omega (arith, g, h) in rw e m.at;
    earlier = λ k g h. elim (Bool-cases (ltb k lo)) [
      | inl t ↦ let l = ltb→lt k lo t in omega (arith, m.above k (omega (arith, g)), w.here k g l)
      | inr t ↦
          let l = ltb→ge k lo t in omega (arith, m.above k (omega (arith, g)), w.earlier k l h)
    ];
    inside = omega arith;
    top = omega (arith, w.inside, w.top);
    deep = omega (arith, w.deep);
  }

-- What the nodes before `v` can ask for. Their parents are `p` at most, `f` of them at most have
-- the parent `p`, and each parent but `p` has two children at most: a codeword for each of the
-- nodes that are `d` deep is there, and one for each child of the nodes that are.
pub record Spare (max_len v d lo p f : ℕ) (par : ℕ → ℕ) (a cs : List ℕ) : Type 0 where
  pub near : (k : ℕ) → v ≤ k → k ≤ p → d ≤ high a k + 1
  pub before : (k : ℕ) → k < v → par k ≤ p
  pub few : (k : ℕ) → k < v → par k ≡ p → v ≤ k + f
  pub slots : d < max_len → 2 * p + f ≤ get_or cs d 0 + 2 * lo
  pub next : d < max_len → 2 * lo ≤ get_or cs (d + 1) 0 + 2 * v

-- The depth of the next node is that of the last, or one more.
pub depth-cases :
    (root max_len u d lo p f : ℕ) (par : ℕ → ℕ) (a cs : List ℕ)
    → Level root (suc u) d lo a
    → Spare max_len (suc u) d lo p f par a cs
    → u < par u
    → par u ≤ root
    → ((high a (par u) + 1 ≡ d) × (lo ≤ par u)) ⊎ ((high a (par u) + 1 ≡ d + 1) × (par u < lo))
depth-cases root max_len u d lo p f par a cs w s up le = elim (Bool-cases (ltb (par u) lo)) [
  | inl t ↦
      let l = ltb→lt (par u) lo t in inr (omega (arith, w.here (par u) (omega (arith, up)) l), l)
  | inr t ↦
      let l = ltb→ge (par u) lo t in
      inl (
        omega (
          arith,
          w.earlier (par u) l le,
          s.near (par u) (omega (arith, up)) (s.before u (omega arith)),
        ),
        l,
      )
]

module _ (root max_len u d lo p f : ℕ) (par : ℕ → ℕ) (a b cs : List ℕ)
    (two : (k : ℕ) → k + 2 ≤ u → par k < par u) (ordered : (k : ℕ) → k ≤ u → par k ≤ par u)
    (w : Level root (suc u) d lo a) (s : Spare max_len (suc u) d lo p f par a cs)
    (up : u < par u) where
  -- The next node is as deep as the last one.
  module _ (far : lo ≤ par u) where
    pub same-used : d < max_len → 0 < get_or cs d 0
    same-used h = elim (Bool-cases (par u == p)) [
      | inl t ↦
          let e : par u ≡ p = (==_iff (par u) p).0 t in
          omega (arith, s.few u (omega arith) e, s.slots h, far, e)
      | inr t ↦
          let l : par u < p = ground (arith, t, s.before u (omega arith)) in
          omega (arith, s.slots h, far, l)
    ]

    pub Spare-same :
        (counts : List ℕ)
        → Marked u d a b
        → (d < max_len → get_or cs d 0 ≤ get_or counts d 0 + 1)
        → (d < max_len → get_or cs (d + 1) 0 + 2 ≤ get_or counts (d + 1) 0)
        → (g : ℕ) × Spare max_len u d lo (par u) g par b counts
    Spare-same counts m fewer more = elim (Bool-cases (par u == p)) [
      | inl t ↦
          let e : par u ≡ p = (==_iff (par u) p).0 t in
          (
            f - 1,
            same_spare (f - 1)
                (λ k h g.
                  omega (arith, s.few u (omega arith) e, s.few k (omega (arith, h)) (g ∙ e)))
                (λ h. omega (arith, s.few u (omega arith) e, s.slots h, fewer h, e)),
          )
      | inr t ↦
          let l : par u < p = ground (arith, t, s.before u (omega arith)) in
          (1, same_spare 1 (λ k h g. sibling k h g) (λ h. omega (arith, s.slots h, fewer h, l)))
    ]
      where
        sibling : (k : ℕ) → k < u → par k ≡ par u → u ≤ k + 1
        sibling k h g = elim (Bool-cases (ltb (k + 1) u)) [
          | inl t ↦
              let l = ltb→lt (k + 1) u t in absurd (omega (arith, two k (omega (arith, l)), g))
          | inr t ↦ ltb→ge (k + 1) u t
        ]

        same_spare :
            (g : ℕ)
            → ((k : ℕ) → k < u → par k ≡ par u → u ≤ k + g)
            → (d < max_len → 2 * par u + g ≤ get_or counts d 0 + 2 * lo)
            → Spare max_len u d lo (par u) g par b counts
        same_spare g few slots = record {
          near = λ k h l. elim (Bool-cases (ltb u k)) [
            | inl t ↦
                let j = ltb→lt u k t in
                omega (
                  arith,
                  m.above k j,
                  s.near k (omega (arith, j)) (omega (arith, l, s.before u (omega arith))),
                )
            | inr t ↦ let e : k ≡ u = omega (arith, h, ltb→ge u k t) in rw e (omega (arith, m.at))
          ];
          before = λ k h. ordered k (omega (arith, h));
          few = few;
          slots = slots;
          next = λ h. omega (arith, s.next h, more h);
        }

  -- The next node is one deeper.
  module _ (close : par u < lo) where
    pub next-used : d + 1 < max_len → 0 < get_or cs (d + 1) 0
    next-used h = omega (arith, s.next (omega (arith, h)), close, up)

    pub Spare-next :
        (counts : List ℕ)
        → Marked u (d + 1) a b
        → (d + 1 < max_len → get_or cs (d + 1) 0 ≤ get_or counts (d + 1) 0 + 1)
        → (d + 1 < max_len → get_or cs (d + 1 + 1) 0 + 2 ≤ get_or counts (d + 1 + 1) 0)
        → Spare max_len u (d + 1) (suc u) (par u) 1 par b counts
    Spare-next counts m fewer more = record {
      near = λ k h l. elim (Bool-cases (ltb u k)) [
        | inl t ↦
            let j = ltb→lt u k t in
            omega (arith, m.above k j, w.here k (omega (arith, j)) (omega (arith, l, close)))
        | inr t ↦ let e : k ≡ u = omega (arith, h, ltb→ge u k t) in rw e (omega (arith, m.at))
      ];
      before = λ k h. ordered k (omega (arith, h));
      few = λ k h g. elim (Bool-cases (ltb (k + 1) u)) [
        | inl t ↦ let l = ltb→lt (k + 1) u t in absurd (omega (arith, two k (omega (arith, l)), g))
        | inr t ↦ ltb→ge (k + 1) u t
      ];
      slots = λ h. omega (arith, s.next (omega (arith, h)), fewer h, close);
      next = λ h. omega (arith, more h);
    }
