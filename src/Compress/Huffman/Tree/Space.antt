-- ===== src/Compress/Huffman/Tree/Space.antt =====
-- The counts of the codeword lengths in src/compress/huffman.rs: the code space that they take, and
-- how many codewords there are.
use zenflate.Prelude.{
  ℕ, zero, suc, ◌+◌, ◌-◌, ◌*◌, ◌^◌, ◌≤◌, ◌<◌, List, [], ◌∷◌, length, get_or, set, ◌==◌, arith, ◌≡◌,
  ◌⊎◌, refl, ap, ◌∙◌, inl, inr, Bool-cases, ==_iff, length-set, get_or-set_above,
}
use zenflate.Prelude.Arith.{two_pow_suc, suc_mul}
use zenflate.Prelude.Words.{add32, sub32}
use zenflate.Outcome.{ok}
use zenflate.Decompress.Output.Fast.{read-ok}
use zenflate.Compress.Huffman.Tree.{used_length, split_codeword}
use zenflate.Compress.Huffman.Tree.Words.{store-ok}

-- The codewords of length `i` take `2 ^ (k - i)` each of a code space of `2 ^ k`, up to length `k`.
abbrev pub space : ℕ → List ℕ → ℕ
space k [] = 0
space zero (c ∷ cs) = c
space (suc k) (c ∷ cs) = c * 2 ^ suc k + space k cs

abbrev pub total : ℕ → List ℕ → ℕ
total k [] = 0
total zero (c ∷ cs) = c
total (suc k) (c ∷ cs) = c + total k cs

pub space-set :
    (k i v : ℕ) (cs : List ℕ)
    → i ≤ k
    → i < length cs
    → space k (set cs i v) + get_or cs i 0 * 2 ^ (k - i) ≡ space k cs + v * 2 ^ (k - i)
space-set k i v [] h g = absurd (omega (arith, g))
space-set zero zero v (c ∷ cs) h g = omega arith
space-set zero (suc i) v (c ∷ cs) h g = absurd (omega (arith, h))
space-set (suc k) zero v (c ∷ cs) h g =
    let e : suc k - 0 ≡ suc k = omega arith in
    let p : 2 ^ (suc k - 0) ≡ 2 ^ suc k = ap (λ (t : ℕ). 2 ^ t) e in
    omega (arith, ap (λ (t : ℕ). c * t) p, ap (λ (t : ℕ). v * t) p)
space-set (suc k) (suc i) v (c ∷ cs) h g =
    let e : suc k - suc i ≡ k - i = omega arith in
    let p : 2 ^ (suc k - suc i) ≡ 2 ^ (k - i) = ap (λ (t : ℕ). 2 ^ t) e in
    omega (
      arith,
      ap (λ (t : ℕ). get_or cs i 0 * t) p,
      ap (λ (t : ℕ). v * t) p,
      space-set k i v cs (omega (arith, h)) (omega (arith, g)),
    )

pub total-set :
    (k i v : ℕ) (cs : List ℕ)
    → i ≤ k
    → i < length cs
    → total k (set cs i v) + get_or cs i 0 ≡ total k cs + v
total-set k i v [] h g = absurd (omega (arith, g))
total-set zero zero v (c ∷ cs) h g = omega arith
total-set zero (suc i) v (c ∷ cs) h g = absurd (omega (arith, h))
total-set (suc k) zero v (c ∷ cs) h g = omega arith
total-set (suc k) (suc i) v (c ∷ cs) h g =
    omega (arith, total-set k i v cs (omega (arith, h)) (omega (arith, g)))

pub get_or-total : (k i : ℕ) (cs : List ℕ) → i ≤ k → get_or cs i 0 ≤ total k cs
get_or-total k i [] h = omega arith
get_or-total zero zero (c ∷ cs) h = omega arith
get_or-total zero (suc i) (c ∷ cs) h = absurd (omega (arith, h))
get_or-total (suc k) zero (c ∷ cs) h = omega arith
get_or-total (suc k) (suc i) (c ∷ cs) h = omega (arith, get_or-total k i cs (omega (arith, h)))

-- Where all the codewords have the length `k`, each takes one.
pub space-longest :
    (k : ℕ) (cs : List ℕ) → ((d : ℕ) → d < k → get_or cs d 0 ≡ 0) → space k cs ≡ total k cs
space-longest k [] h = refl
space-longest zero (c ∷ cs) h = refl
space-longest (suc k) (c ∷ cs) h =
    let none : c ≡ 0 = h 0 (omega arith) in
    rw none (omega (arith, space-longest k cs (λ d l. h (suc d) (omega (arith, l)))))

expand : (n m : ℕ) → (n + 2) * m ≡ n * m + 2 * m
expand n m = grind arith

-- The two writes of a split, in units of `p`.
balance :
    (x y z p q s t u : ℕ)
    → 0 < x
    → z ≡ y
    → q ≡ 2 * p
    → t + x * q ≡ s + (x - 1) * q
    → u + z * p ≡ t + (y + 2) * p
    → u ≡ s
balance zero y z p q s t u pos e1 e2 one two = absurd (omega (arith, pos))
balance (suc x) y z p q s t u pos e1 e2 one two =
    let f : suc x - 1 ≡ x = omega arith in
    omega (
      arith,
      one,
      two,
      e2,
      ap (λ (n : ℕ). n * q) f,
      suc_mul x q,
      ap (λ (n : ℕ). n * p) e1,
      expand y p,
    )

-- A codeword of the length `d` becomes two of the next: the space stays, with one more codeword.
abbrev pub split_at : List ℕ → ℕ → List ℕ
split_at cs d =
    let fewer = set cs d (get_or cs d 0 - 1) in set fewer (d + 1) (get_or cs (d + 1) 0 + 2)

module _ (k d : ℕ) (cs : List ℕ) (h : d < k) (room : k < length cs) (used : 0 < get_or cs d 0) where
  abbrev fewer : List ℕ
  fewer = set cs d (get_or cs d 0 - 1)

  same_next : get_or fewer (d + 1) 0 ≡ get_or cs (d + 1) 0
  same_next = get_or-set_above cs d (d + 1) (get_or cs d 0 - 1) 0 (omega arith)

  pub total-split : total k (split_at cs d) ≡ total k cs + 1
  total-split = omega (
    arith,
    used,
    same_next,
    total-set k d (get_or cs d 0 - 1) cs (omega (arith, h)) (omega (arith, h, room)),
    total-set k (d + 1) (get_or cs (d + 1) 0 + 2) fewer (omega (arith, h))
        (omega (arith, h, room, length-set cs d (get_or cs d 0 - 1))),
  )

  pub space-split : space k (split_at cs d) ≡ space k cs
  space-split =
      let p = 2 ^ (k - (d + 1)) in
      let e : k - d ≡ suc (k - (d + 1)) = omega (arith, h) in
      let twice : 2 ^ (k - d) ≡ 2 * p = ap (λ (t : ℕ). 2 ^ t) e ∙ two_pow_suc (k - (d + 1)) in
      let one = space-set k d (get_or cs d 0 - 1) cs (omega (arith, h)) (omega (arith, h, room)) in
      let two =
        space-set k (d + 1) (get_or cs (d + 1) 0 + 2) fewer (omega (arith, h))
          (omega (arith, h, room, length-set cs d (get_or cs d 0 - 1))) in
      balance (get_or cs d 0) (get_or cs (d + 1) 0) (get_or fewer (d + 1) 0) p (2 ^ (k - d))
        (space k cs) (space k fewer) (space k (split_at cs d)) used same_next twice one two

-- The search finds a length that has a codeword, where one below `n` has.
pub used_length-found {ℓ} :
    (E : Type ℓ) (cs : List ℕ) (n : ℕ)
    → n ≤ length cs
    → ((d : ℕ) × (used_length {E = E} cs n ≡ ok d) × (d < n) × (0 < get_or cs d 0))
      ⊎ ((d : ℕ) → d < n → get_or cs d 0 ≡ 0)
unfolding used_length
used_length-found E cs zero h = inr (λ d l. absurd (omega (arith, l)))
used_length-found E cs (suc n) h =
    let found = read-ok E cs n (omega (arith, h)) in
    elim (Bool-cases (get_or cs n 0 == 0)) [
      | inr t ↦ inl (n, rw (found, t) refl, omega arith, ground (arith, t))
      | inl t ↦ elim (used_length-found E cs n (omega (arith, h))) [
        | inl (d, eq, l, used) ↦ inl (d, rw (found, t) eq, omega (arith, l), used)
        | inr none ↦ inr (λ d l. elim (Bool-cases (d == n)) [
          | inl u ↦ let same : d ≡ n = (==_iff d n).0 u in rw same ((==_iff (get_or cs n 0) 0).0 t)
          | inr u ↦ none d (ground (arith, l, u))
        ])
      ]
    ]

pub split_codeword-ok {ℓ} :
    (E : Type ℓ) (k d : ℕ) (cs : List ℕ)
    → d < k
    → k < length cs
    → 0 < get_or cs d 0
    → total k cs + 2 < 2 ^ 32
    → split_codeword {E = E} cs d ≡ ok (split_at cs d)
unfolding split_codeword
split_codeword-ok E k d cs h room used small =
    let c = get_or cs d 0 in
    let less : sub32 c 1 ≡ c - 1 =
      omega (arith, used, small, get_or-total k d cs (omega (arith, h))) in
    let fewer = set cs d (c - 1) in
    let size = length-set cs d (c - 1) in
    let next : get_or fewer (d + 1) 0 ≡ get_or cs (d + 1) 0 =
      get_or-set_above cs d (d + 1) (c - 1) 0 (omega arith) in
    let more : add32 (get_or cs (d + 1) 0) 2 ≡ get_or cs (d + 1) 0 + 2 =
      omega (arith, small, get_or-total k (d + 1) cs (omega (arith, h))) in
    rw
      (
        read-ok E cs d (omega (arith, h, room)),
        less,
        store-ok E cs d (c - 1) (omega (arith, h, room)),
        read-ok E fewer (d + 1) (omega (arith, h, room, size)),
        next,
        more,
      )
      (store-ok E fewer (d + 1) (get_or cs (d + 1) 0 + 2) (omega (arith, h, room, size)))
