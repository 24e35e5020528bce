-- ===== src/Compress/BlockSplit/Exact.antt =====
-- The test of `do_end_block_check` of src/compress/block_split.rs in numbers that do not wrap.
use zenflate.Prelude.{
  ℕ, ◌+◌, ◌-◌, ◌*◌, ◌/◌, ◌^◌, ◌≤◌, ◌<◌, List, [], ◌∷◌, leb, ltb, ◌&&◌, Bool, true, false,
  if◌then◌else◌, arith, ◌≡◌, refl, ap, ◌∙◌, inl, inr, Bool-cases, ltb→lt, leb→le, leb→gt,
}
use mathlib.Core.Path.{subst}
use zenflate.Prelude.Arith.{mul_mono}
use zenflate.Prelude.Words.{add32, sub32, add64, mul64}
use zenflate.Compress.BlockSplit.{BlockSplitStats, abs_diff, total_delta, cutoff_for, differs}
use zenflate.Compress.BlockSplit.Counts.{sum, Counted}

-- The distance of the two distributions, both scaled to the product of the totals.
abbrev pub distance : ℕ → ℕ → List ℕ → List ℕ → ℕ
distance num_old num_new [] ys = 0
distance num_old num_new (x ∷ xs) [] = 0
distance num_old num_new (x ∷ xs) (y ∷ ys) =
    abs_diff (y * num_old) (x * num_new) + distance num_old num_new xs ys

-- The evidence that a block of this length needs.
abbrev pub evidence : ℕ → ℕ → ℕ → ℕ
evidence num_old num_new block_length =
    let cutoff = num_new * 200 / 512 * num_old in
    if ltb block_length 10000 && ltb (num_old + num_new) 8192
    then cutoff + cutoff * (8192 - (num_old + num_new)) / 8192
    else cutoff

distance-le :
    (num_old num_new : ℕ) (xs ys : List ℕ)
    → distance num_old num_new xs ys ≤ sum ys * num_old + sum xs * num_new
distance-le num_old num_new [] ys = omega arith
distance-le num_old num_new (x ∷ xs) [] = omega arith
distance-le num_old num_new (x ∷ xs) (y ∷ ys) =
    let behind = distance-le num_old num_new xs ys in
    let near : abs_diff (y * num_old) (x * num_new) ≤ y * num_old + x * num_new = ground arith in
    omega (arith, behind, near)

total_delta-exact :
    (num_old num_new total : ℕ) (xs ys : List ℕ)
    → total + (sum ys * num_old + sum xs * num_new) < 2 ^ 64
    → total_delta num_old num_new total xs ys ≡ total + distance num_old num_new xs ys
unfolding total_delta
total_delta-exact num_old num_new total [] ys h = omega arith
total_delta-exact num_old num_new total (x ∷ xs) [] h = omega arith
total_delta-exact num_old num_new total (x ∷ xs) (y ∷ ys) h =
    let delta = abs_diff (y * num_old) (x * num_new) in
    let near : delta ≤ y * num_old + x * num_new = ground arith in
    let a : mul64 x num_new ≡ x * num_new = omega (arith, h) in
    let b : mul64 y num_old ≡ y * num_old = omega (arith, h) in
    let c : add64 total delta ≡ total + delta = omega (arith, h, near) in
    ap (λ (t : ℕ). total_delta num_old num_new (add64 total (abs_diff (mul64 y num_old) t)) xs ys) a
    ∙ ap (λ (t : ℕ). total_delta num_old num_new (add64 total (abs_diff t (x * num_new))) xs ys) b
    ∙ ap (λ (t : ℕ). total_delta num_old num_new t xs ys) c
    ∙ total_delta-exact num_old num_new (total + delta) xs ys (omega (arith, h, near))
    ∙ omega arith

square-le : (x d : ℕ) → 4 * (x * (x + d)) ≤ (x + (x + d)) * (x + (x + d))
square-le x d = grind arith

square-le_swapped : (y d : ℕ) → 4 * ((y + d) * y) ≤ ((y + d) + y) * ((y + d) + y)
square-le_swapped y d = grind arith

-- A product is small where the sum is.
product-le : (x y : ℕ) → 4 * (x * y) ≤ (x + y) * (x + y)
product-le x y = elim (Bool-cases (leb x y)) [
  | inl a ↦
      let e : x + (y - x) ≡ y = omega (arith, leb→le x y a) in
      subst (λ (t : ℕ). 4 * (x * t) ≤ (x + t) * (x + t)) e (square-le x (y - x))
  | inr a ↦
      let e : y + (x - y) ≡ x = omega (arith, leb→gt x y a) in
      subst (λ (t : ℕ). 4 * (t * y) ≤ (t + y) * (t + y)) e (square-le_swapped y (x - y))
]

product-small : (x y k : ℕ) → x + y ≤ k → k < 2 ^ 32 → x * y + x * y < 2 ^ 63
product-small x y k h small =
    let le : (x + y) * (x + y) ≤ 4294967295 * 4294967295 =
      mul_mono (x + y) (x + y) 4294967295 4294967295 (omega (arith, h, small))
        (omega (arith, h, small)) in
    omega (arith, le, product-le x y)

cutoff-small :
    (s : BlockSplitStats) (k : ℕ)
    → Counted k s
    → k < 2 ^ 32
    → mul64 (mul64 s.num_new_observations 200 / 512) s.num_observations
      ≡ s.num_new_observations * 200 / 512 * s.num_observations
cutoff-small s k v small =
    let x = s.num_new_observations in
    let y = s.num_observations in
    let h = v.in_range in
    let a : mul64 x 200 ≡ x * 200 = omega (arith, h, small) in
    let le : x * 200 / 512 * y ≤ x * y =
      mul_mono (x * 200 / 512) y x y (omega arith) (omega arith) in
    let room = product-small x y k (omega (arith, h)) small in
    ap (λ (t : ℕ). mul64 (t / 512) y) a ∙ omega (arith, le, room)

-- The test, in exact numbers.
abbrev pub differs_exactly : BlockSplitStats → ℕ → Bool
differs_exactly s block_length =
    let num_old = s.num_observations in
    let num_new = s.num_new_observations in
    leb (evidence num_old num_new block_length)
      (distance num_old num_new s.observations s.new_observations + block_length / 4096 * num_old)

and_right : (a b : Bool) → (a && b) ≡ true → b ≡ true
and_right true b h = h
and_right false b h = ground (arith, h)

-- With few items the raised cutoff is small.
short_cutoff :
    (x y : ℕ)
    → y + x < 8192
    → add64 (x * 200 / 512 * y) (mul64 (x * 200 / 512 * y) (sub32 8192 (y + x)) / 8192)
      ≡ x * 200 / 512 * y + x * 200 / 512 * y * (8192 - (y + x)) / 8192
short_cutoff x y h =
    let cutoff = x * 200 / 512 * y in
    let le : cutoff ≤ 3200 * 8192 =
      mul_mono (x * 200 / 512) y 3200 8192 (omega (arith, h)) (omega (arith, h)) in
    let left : sub32 8192 (y + x) ≡ 8192 - (y + x) = omega (arith, h) in
    let le2 : cutoff * (8192 - (y + x)) ≤ 3200 * 8192 * 8192 =
      mul_mono cutoff (8192 - (y + x)) (3200 * 8192) 8192 le (omega arith) in
    ap (λ (t : ℕ). add64 cutoff (mul64 cutoff t / 8192)) left ∙ omega (arith, le, le2)

cutoff_for-exact :
    (s : BlockSplitStats) (k block_length : ℕ)
    → Counted k s
    → k < 2 ^ 32
    → cutoff_for s block_length ≡ evidence s.num_observations s.num_new_observations block_length
unfolding cutoff_for
cutoff_for-exact s k block_length v small =
    let x = s.num_new_observations in
    let y = s.num_observations in
    let cutoff = x * 200 / 512 * y in
    let h = v.in_range in
    let items : add32 y x ≡ y + x = omega (arith, h, small) in
    let test = ltb block_length 10000 && ltb (y + x) 8192 in
    rw (cutoff-small s k v small, items)
      (elim (Bool-cases test) [
        | inr a ↦ rw a refl
        | inl a ↦
            let few = ltb→lt (y + x) 8192 (and_right (ltb block_length 10000) _ a) in
            rw a (short_cutoff x y few)
      ])

-- Where the counters add up to totals below 2 ^ 32, the u64 arithmetic of the test is exact: no
-- product and no sum wraps, whatever the length of the block.
pub differs-exact :
    (k : ℕ) (s : BlockSplitStats) (block_length : ℕ)
    → Counted k s
    → k < 2 ^ 32
    → block_length < 2 ^ 32
    → differs s block_length ≡ differs_exactly s block_length
unfolding differs
differs-exact k s block_length v small len =
    let x = s.num_new_observations in
    let y = s.num_observations in
    let h = v.in_range in
    let room = product-small x y k (omega (arith, h)) small in
    let swap : y * x ≡ x * y = omega arith in
    let sums_new = ap (λ (t : ℕ). t * y) v.total_new in
    let sums_old = ap (λ (t : ℕ). t * x) v.total_old in
    let le = distance-le y x s.observations s.new_observations in
    let age : block_length / 4096 * y ≤ 1048576 * 4294967296 =
      mul_mono (block_length / 4096) y 1048576 4294967296 (omega (arith, len))
        (omega (arith, h, small)) in
    let delta =
      total_delta-exact y x 0 s.observations s.new_observations
        (omega (arith, sums_new, sums_old, room, swap)) in
    let d = distance y x s.observations s.new_observations in
    let sum_exact : add64 (0 + d) (mul64 (block_length / 4096) y) ≡ d + block_length / 4096 * y =
      omega (arith, age, le, sums_new, sums_old, room, swap) in
    ap
      (λ (t : ℕ). leb t (
        add64 (total_delta y x 0 s.observations s.new_observations)
          (mul64 (block_length / 4096) y)))
      (cutoff_for-exact s k block_length v small)
    ∙ ap (λ (t : ℕ). leb (evidence y x block_length) (add64 t (mul64 (block_length / 4096) y)))
        delta
    ∙ ap (λ (t : ℕ). leb (evidence y x block_length) t) sum_exact
