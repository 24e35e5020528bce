-- ===== src/MatchFinder/Matching.antt =====
-- How far two sequences agree, byte by byte: what src/matchfinder/mod.rs extends a match to.
use zenflate.Prelude.{
  ℕ, zero, suc, ◌+◌, ◌/◌, ◌≤◌, ◌<◌, List, [], ◌∷◌, length, get_or, take, drop, ◌==◌, Bool,
  if◌then◌else◌, arith, ◌≡◌, refl, sym, ap, ◌∙◌, inl, inr, Bool-cases, ==_iff,
}
use mathlib.Core.Path.{subst}
use zenflate.MatchFinder.{trailing_zeros}
use zenflate.MatchFinder.Zeros.{common}

-- The bytes from `i` on that agree, of `k` at most.
abbrev pub matching : ℕ → List ℕ → List ℕ → ℕ → ℕ
matching zero s m i = 0
matching (suc k) s m i = if get_or s i 0 == get_or m i 0 then suc (matching k s m (i + 1)) else 0

drop-first : (xs : List ℕ) (i : ℕ) → i < length xs → drop i xs ≡ get_or xs i 0 ∷ drop (i + 1) xs
drop-first [] i h = absurd (omega (arith, h))
drop-first (x ∷ xs) zero h = refl
drop-first (x ∷ xs) (suc i) h =
    let e : suc i + 1 ≡ suc (i + 1) = omega arith in
    drop-first xs i (omega (arith, h)) ∙ ap (λ (t : ℕ). get_or xs i 0 ∷ drop t (x ∷ xs)) (sym e)

pub common-matching :
    (k i : ℕ) (s m : List ℕ)
    → i + k ≤ length s
    → i + k ≤ length m
    → common (take k (drop i s)) (take k (drop i m)) ≡ matching k s m i
common-matching zero i s m h g = refl
common-matching (suc k) i s m h g =
    let a = drop-first s i (omega (arith, h)) in
    let b = drop-first m i (omega (arith, g)) in
    ap (λ l. common (take (suc k) l) (take (suc k) (drop i m))) a
    ∙ ap (λ l. common (take (suc k) (get_or s i 0 ∷ drop (i + 1) s)) (take (suc k) l)) b
    ∙ ap (λ (t : ℕ). if get_or s i 0 == get_or m i 0 then suc t else 0)
        (common-matching k (i + 1) s m (omega (arith, h)) (omega (arith, g)))

pub matching-le : (k i : ℕ) (s m : List ℕ) → matching k s m i ≤ k
matching-le zero i s m = omega arith
matching-le (suc k) i s m = let h = matching-le k (i + 1) s m in ground (arith, h)

pub matching-stops :
    (k j i : ℕ) (s m : List ℕ) → matching k s m i < k → matching (k + j) s m i ≡ matching k s m i
matching-stops zero j i s m h = absurd (omega (arith, h))
matching-stops (suc k) j i s m h =
    let e : suc k + j ≡ suc (k + j) = omega arith in
    ap (λ (t : ℕ). matching t s m i) e ∙ elim (Bool-cases (get_or s i 0 == get_or m i 0)) [
      | inl a ↦
          let less : suc (matching k s m (i + 1)) < suc k =
            subst (λ (b : Bool). (if b then suc (matching k s m (i + 1)) else 0) < suc k) a h in
          rw a (ap suc (matching-stops k j (i + 1) s m (omega (arith, less))))
      | inr a ↦ rw a refl
    ]

pub matching-goes_on :
    (k j i : ℕ) (s m : List ℕ)
    → matching k s m i ≡ k
    → matching (k + j) s m i ≡ k + matching j s m (i + k)
matching-goes_on zero j i s m h =
    let e : 0 + j ≡ j = omega arith in
    let f : i ≡ i + 0 = omega arith in
    ap (λ (t : ℕ). matching t s m i) e ∙ ap (matching j s m) f ∙ omega arith
matching-goes_on (suc k) j i s m h =
    let e : suc k + j ≡ suc (k + j) = omega arith in
    let f : i + 1 + k ≡ i + suc k = omega arith in
    ap (λ (t : ℕ). matching t s m i) e ∙ elim (Bool-cases (get_or s i 0 == get_or m i 0)) [
      | inl a ↦
          let all : suc (matching k s m (i + 1)) ≡ suc k =
            subst (λ (b : Bool). (if b then suc (matching k s m (i + 1)) else 0) ≡ suc k) a h in
          rw a (
            ap suc (
              matching-goes_on k j (i + 1) s m (omega (arith, all))
              ∙ ap (λ (t : ℕ). k + matching j s m t) f)
            ∙ omega arith)
      | inr a ↦
          let none : 0 ≡ suc k =
            subst (λ (b : Bool). (if b then suc (matching k s m (i + 1)) else 0) ≡ suc k) a h in
          absurd (omega (arith, none))
    ]

pub common-all : (xs ys : List ℕ) → length xs ≡ length ys → common xs ys ≡ length xs → xs ≡ ys
common-all [] [] e h = refl
common-all [] (y ∷ ys) e h = absurd (omega (arith, e))
common-all (x ∷ xs) [] e h = absurd (omega (arith, e))
common-all (x ∷ xs) (y ∷ ys) e h = elim (Bool-cases (x == y)) [
  | inl a ↦
      let same : x ≡ y = (==_iff x y).0 a in
      let all : suc (common xs ys) ≡ suc (length xs) =
        subst (λ (b : Bool). (if b then suc (common xs ys) else 0) ≡ suc (length xs)) a h in
      ap (λ (t : ℕ). t ∷ xs) same
      ∙ ap (λ t. y ∷ t) (common-all xs ys (omega (arith, e)) (omega (arith, all)))
  | inr a ↦
      let none : 0 ≡ suc (length xs) =
        subst (λ (b : Bool). (if b then suc (common xs ys) else 0) ≡ suc (length xs)) a h in
      absurd (omega (arith, none))
]

pub zero_word : trailing_zeros 64 0 / 8 ≡ 8
unfolding trailing_zeros
zero_word = refl
