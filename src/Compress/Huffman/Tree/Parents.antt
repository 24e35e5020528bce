-- ===== src/Compress/Huffman/Tree/Parents.antt =====
-- The parents in the tree of src/compress/huffman.rs. Of the nodes `0 .. b` the parents are known,
-- and lie below `e`.
use zenflate.Prelude.{ℕ, ◌+◌, ◌≤◌, ◌<◌, List, arith, ◌≡◌, inl, inr, Bool-cases, ltb, ltb→lt, ltb→ge}
use zenflate.Compress.Huffman.Tree.Words.{high}

-- A parent comes behind its children, the parents are in order, and no three nodes have one parent.
pub record Parents (b e : ℕ) (a : List ℕ) : Type 0 where
  pub above : (k : ℕ) → k < b → k < high a k
  pub bound : (k : ℕ) → k < b → high a k < e
  pub ordered : (k : ℕ) → k + 1 < b → high a k ≤ high a (k + 1)
  pub two : (k : ℕ) → k + 2 < b → high a k < high a (k + 2)

pub Parents-empty : (e : ℕ) (a : List ℕ) → Parents 0 e a
Parents-empty e a = record {
  above = λ k h. absurd (omega (arith, h));
  bound = λ k h. absurd (omega (arith, h));
  ordered = λ k h. absurd (omega (arith, h));
  two = λ k h. absurd (omega (arith, h));
}

-- At most two nodes get the parent `e`.
module _ (b c e : ℕ) (a made : List ℕ) (old : Parents b e a) (few : c ≤ b + 2) (made_before : c ≤ e)
    (kept : (k : ℕ) → k < b → high made k ≡ high a k)
    (set_here : (k : ℕ) → b ≤ k → k < c → high made k ≡ e) where
  step-bound : (k : ℕ) → k < c → high made k ≤ e
  step-bound k h = elim (Bool-cases (ltb k b)) [
    | inl t ↦ let g = ltb→lt k b t in omega (arith, kept k g, old.bound k g)
    | inr t ↦ let g = ltb→ge k b t in omega (arith, set_here k g h)
  ]

  step-above : (k : ℕ) → k < c → k < high made k
  step-above k h = elim (Bool-cases (ltb k b)) [
    | inl t ↦ let g = ltb→lt k b t in omega (arith, kept k g, old.above k g)
    | inr t ↦ let g = ltb→ge k b t in omega (arith, set_here k g h, made_before, h)
  ]

  step-ordered : (k : ℕ) → k + 1 < c → high made k ≤ high made (k + 1)
  step-ordered k h = elim (Bool-cases (ltb (k + 1) b)) [
    | inl t ↦
        let g = ltb→lt (k + 1) b t in
        omega (arith, kept k (omega (arith, g)), kept (k + 1) g, old.ordered k g)
    | inr t ↦
        let g = ltb→ge (k + 1) b t in
        omega (arith, set_here (k + 1) g h, step-bound k (omega (arith, h)))
  ]

  step-two : (k : ℕ) → k + 2 < c → high made k < high made (k + 2)
  step-two k h = elim (Bool-cases (ltb (k + 2) b)) [
    | inl t ↦
        let g = ltb→lt (k + 2) b t in
        omega (arith, kept k (omega (arith, g)), kept (k + 2) g, old.two k g)
    | inr t ↦
        let g = ltb→ge (k + 2) b t in
        let first : k < b = omega (arith, h, few) in
        omega (arith, set_here (k + 2) g h, kept k first, old.bound k first)
  ]

  pub Parents-step : Parents c (e + 1) made
  Parents-step = record {
    above = step-above;
    bound = λ k h. omega (arith, step-bound k h);
    ordered = step-ordered;
    two = step-two;
  }
