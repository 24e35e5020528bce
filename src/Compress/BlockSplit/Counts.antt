-- ===== src/Compress/BlockSplit/Counts.antt =====
-- The counters of src/compress/block_split.rs.
use zenflate.Prelude.{
  ℕ, zero, suc, ◌+◌, ◌^◌, ◌≤◌, ◌<◌, min, List, [], ◌∷◌, length, get_or, set, All, ltb, ◌&&◌, arith,
  ◌≡◌, refl, ap, ◌∙◌, inl, inr, Bool-cases, length-set,
}
use mathlib.Core.Path.{subst}
use zenflate.Prelude.Bits.{agree_below, agree_below→eq}
use zenflate.Prelude.Words.{add32, IsByte}
use zenflate.Compress.BlockSplit.{
  BlockSplitStats, new, bump, literal_type, match_type, observe_literal, observe_match, add_counts,
  merge_new_observations, do_end_block_check, differs,
}

abbrev pub sum : List ℕ → ℕ
sum [] = 0
sum (x ∷ xs) = x + sum xs

-- There are ten counters of either kind, they add up to the two totals, and the totals to `k` at
-- most.
pub record Counted (k : ℕ) (s : BlockSplitStats) : Type 0 where
  pub size_new : length s.new_observations ≡ 10
  pub size_old : length s.observations ≡ 10
  pub total_new : sum s.new_observations ≡ s.num_new_observations
  pub total_old : sum s.observations ≡ s.num_observations
  pub in_range : s.num_observations + s.num_new_observations ≤ k

pub get_or-le : (xs : List ℕ) (i : ℕ) → get_or xs i 0 ≤ sum xs
get_or-le [] i = omega arith
get_or-le (x ∷ xs) zero = omega arith
get_or-le (x ∷ xs) (suc i) = omega (arith, get_or-le xs i)

sum-set : (xs : List ℕ) (i v : ℕ) → i < length xs → sum (set xs i v) + get_or xs i 0 ≡ sum xs + v
sum-set [] i v h = absurd (omega arith)
sum-set (x ∷ xs) zero v h = omega arith
sum-set (x ∷ xs) (suc i) v h = omega (arith, sum-set xs i v (omega arith))

pub sum-bump :
    (xs : List ℕ) (i : ℕ) → i < length xs → sum xs + 1 < 2 ^ 32 → sum (bump xs i) ≡ sum xs + 1
unfolding bump
sum-bump xs i h small = omega (arith, sum-set xs i (add32 (get_or xs i 0) 1) h, get_or-le xs i)

length-add_counts : (xs ys : List ℕ) → length (add_counts xs ys) ≡ length xs
unfolding add_counts
length-add_counts [] ys = refl
length-add_counts (x ∷ xs) [] = refl
length-add_counts (x ∷ xs) (y ∷ ys) = ap suc (length-add_counts xs ys)

sum-add_counts :
    (xs ys : List ℕ)
    → length xs ≡ length ys
    → sum xs + sum ys < 2 ^ 32
    → sum (add_counts xs ys) ≡ sum xs + sum ys
unfolding add_counts
sum-add_counts [] [] e h = omega arith
sum-add_counts [] (y ∷ ys) e h = absurd (omega arith)
sum-add_counts (x ∷ xs) [] e h = absurd (omega arith)
sum-add_counts (x ∷ xs) (y ∷ ys) e h =
    omega (arith, sum-add_counts xs ys (omega arith) (omega arith))

literal_type-lt : (lit : ℕ) → IsByte lit → literal_type lit < 8
unfolding literal_type agree_below
literal_type-lt lit h =
    omega (arith, agree_below→eq (λ b. min 7 (literal_type b)) literal_type 256 refl lit h)

match_type-lt : (len : ℕ) → match_type len < 10
unfolding match_type
match_type-lt len = ground arith

bump-Counted :
    (k i : ℕ) (s : BlockSplitStats)
    → i < 10
    → Counted k s
    → k + 1 < 2 ^ 32
    → Counted (k + 1) (record s {
      new_observations = bump s.new_observations i;
      num_new_observations = add32 s.num_new_observations 1;
    })
unfolding bump
bump-Counted k i s h v small = record {
  size_new = length-set s.new_observations i (add32 (get_or s.new_observations i 0) 1) ∙ v.size_new;
  size_old = v.size_old;
  total_new =
      sum-bump s.new_observations i (omega (arith, v.size_new, h))
        (omega (arith, small, v.total_new, v.in_range))
      ∙ omega (arith, small, v.total_new, v.in_range);
  total_old = v.total_old;
  in_range = omega (arith, small, v.in_range);
}

merge-Counted :
    (k : ℕ) (s : BlockSplitStats) → Counted k s → k < 2 ^ 32 → Counted k (merge_new_observations s)
unfolding merge_new_observations
merge-Counted k s v small = record {
  size_new = refl;
  size_old = length-add_counts s.observations s.new_observations ∙ v.size_old;
  total_new = refl;
  total_old =
      sum-add_counts s.observations s.new_observations (omega (arith, v.size_new, v.size_old))
        (omega (arith, small, v.total_new, v.total_old, v.in_range))
      ∙ omega (arith, small, v.total_new, v.total_old, v.in_range);
  in_range = omega (arith, small, v.in_range);
}

do_end_block_check-Counted :
    (k : ℕ) (s : BlockSplitStats) (block_length : ℕ)
    → Counted k s
    → k < 2 ^ 32
    → Counted k (do_end_block_check s block_length).1
unfolding do_end_block_check
do_end_block_check-Counted k s block_length v small =
    elim (Bool-cases (ltb 0 s.num_observations && differs s block_length)) [
      | inl a ↦ rw a v
      | inr a ↦ rw a (merge-Counted k s v small)
    ]

-- The calls that a parser makes on the statistics of a block.
pub data Observation : Type 0 where
  literal : ℕ → Observation
  matched : ℕ → Observation
  block_check : ℕ → Observation

abbrev pub observe : BlockSplitStats → Observation → BlockSplitStats
observe s (literal lit) = observe_literal s lit
observe s (matched len) = observe_match s len
observe s (block_check block_length) = (do_end_block_check s block_length).1

abbrev pub observe_all : BlockSplitStats → List Observation → BlockSplitStats
observe_all s [] = s
observe_all s (o ∷ os) = observe_all (observe s o) os

abbrev pub IsObservation : Observation → Type 0
IsObservation (literal lit) = IsByte lit
IsObservation (matched len) = Unit {0}
IsObservation (block_check block_length) = Unit {0}

Counted-more : (k : ℕ) (s : BlockSplitStats) → Counted k s → Counted (k + 1) s
Counted-more k s v = record {
  size_new = v.size_new;
  size_old = v.size_old;
  total_new = v.total_new;
  total_old = v.total_old;
  in_range = omega (arith, v.in_range);
}

observe-Counted :
    (k : ℕ) (s : BlockSplitStats) (o : Observation)
    → IsObservation o
    → Counted k s
    → k + 1 < 2 ^ 32
    → Counted (k + 1) (observe s o)
unfolding observe_literal observe_match
observe-Counted k s (literal lit) h v small =
    bump-Counted k (literal_type lit) s (omega (arith, literal_type-lt lit h)) v small
observe-Counted k s (matched len) h v small =
    bump-Counted k (match_type len) s (match_type-lt len) v small
observe-Counted k s (block_check n) h v small =
    Counted-more k _ (do_end_block_check-Counted k s n v (omega (arith, small)))

observe_all-from :
    (k : ℕ) (s : BlockSplitStats) (os : List Observation)
    → All IsObservation os
    → Counted k s
    → k + length os < 2 ^ 32
    → Counted (k + length os) (observe_all s os)
observe_all-from k s [] h v small = subst (λ (t : ℕ). Counted t s) (omega arith) v
observe_all-from k s (o ∷ os) (p, h) v small =
    subst (λ (t : ℕ). Counted t (observe_all (observe s o) os)) (omega arith)
      (observe_all-from (k + 1) (observe s o) os h
        (observe-Counted k s o p v (omega (arith, small))) (omega (arith, small)))

pub observe_all-Counted :
    (os : List Observation)
    → All IsObservation os
    → length os < 2 ^ 32
    → Counted (length os) (observe_all new os)
unfolding new
observe_all-Counted os h small =
    subst (λ (t : ℕ). Counted t (observe_all new os)) (omega arith)
      (observe_all-from 0 new os h
        (record {
          size_new = refl;
          size_old = refl;
          total_new = refl;
          total_old = refl;
          in_range = omega arith;
        })
        (omega (arith, small)))
