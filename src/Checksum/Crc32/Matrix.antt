-- ===== src/Checksum/Crc32/Matrix.antt =====
-- The matrices over GF(2) of `crc32_combine` (src/checksum/crc32.rs): each stands for a number of
-- zero bits through the register.
use zenflate.Prelude.{
  ℕ, zero, suc, ◌+◌, ◌*◌, ◌/◌, ◌%◌, ◌^◌, ◌≤◌, ◌<◌, bit_and, bit_xor, List, ◌∷◌, length, get_or,
  ◌==◌, not, if◌then◌else◌, arith, ◌≡◌, refl, ap, ◌∙◌, sym, inl, inr, Bool-cases, ==_iff,
}
use mathlib.Core.Path.{subst}
use native.Mathlib.Nat.{pow-suc}
use zenflate.Prelude.Arith.{two_pow_pos, two_pow_mono, two_pow_add}
use zenflate.Prelude.Range.{length-map, get_or-map}
use zenflate.Prelude.Words.{shl32}
use zenflate.Prelude.Bits.{bit_and_mask}
use zenflate.Prelude.Bits.Xor.{bit_xor-zero, bit_xor_comm, bit_xor_assoc, bit_xor_disjoint}
use zenflate.Checksum.Crc32.{
  crc32_poly, next_bit, next_bits, gf2_loop, gf2_matrix_times, gf2_matrix_square, shifted_rows,
  one_zero_bit, combine_loop,
}
use zenflate.Checksum.Crc32.Linear.{
  next_bits-xor, next_bits-add, next_bits-zero, next_bits-shift, next_bits-lt,
}

-- The columns of `n` zero bits.
pub record Operator (n : ℕ) (mat : List ℕ) : Type 0 where
  pub size : length mat ≡ 32
  pub column : (i : ℕ) → i < 32 → get_or mat i 0 ≡ next_bits n (2 ^ i)

-- What a round of the loop adds, for the digit `b`.
digit_term :
    (n i b : ℕ) (mat : List ℕ) (sum : ℕ)
    → Operator n mat
    → i < 32
    → b < 2
    → (if not (b == 0) then bit_xor sum (get_or mat i 0) else sum)
      ≡ bit_xor sum (next_bits n (b * 2 ^ i))
digit_term n i zero mat sum o h g =
    let e : 0 * 2 ^ i ≡ 0 = omega arith in
    sym (
      ap (λ t. bit_xor sum (next_bits n t)) e
      ∙ ap (bit_xor sum) (next_bits-zero n)
      ∙ bit_xor-zero sum)
digit_term n i (suc zero) mat sum o h g =
    let e : 2 ^ i ≡ 1 * 2 ^ i = omega arith in ap (bit_xor sum) (o.column i h ∙ ap (next_bits n) e)
digit_term n i (suc (suc b)) mat sum o h g = absurd (omega arith)

-- A vector by its lowest digit and the rest.
vector_step :
    (n v i : ℕ)
    → next_bits n (v * 2 ^ i)
      ≡ bit_xor (next_bits n (v % 2 * 2 ^ i)) (next_bits n (v / 2 * 2 ^ (i + 1)))
vector_step n v i =
    let p : 2 ^ (i + 1) ≡ 2 ^ i * 2 = two_pow_add i 1 in
    let small : v % 2 * 2 ^ i < 2 ^ (i + 1) =
      omega (arith, p, two_pow_pos i, low (v % 2) (2 ^ i) (omega arith)) in
    let e : v * 2 ^ i ≡ v % 2 * 2 ^ i + v / 2 * 2 ^ (i + 1) =
      split v (2 ^ i) ∙ ap (λ (t : ℕ). v % 2 * 2 ^ i + v / 2 * t) (sym p) in
    ap (next_bits n) (e ∙ sym (bit_xor_disjoint (i + 1) (v % 2 * 2 ^ i) (v / 2) small))
    ∙ next_bits-xor n (v % 2 * 2 ^ i) (v / 2 * 2 ^ (i + 1))
  where
    low : (b t : ℕ) → b < 2 → b * t ≤ t
    low zero t h = omega arith
    low (suc zero) t h = omega arith
    low (suc (suc b)) t h = absurd (omega arith)

    split : (x t : ℕ) → x * t ≡ x % 2 * t + x / 2 * (t * 2)
    split x t = let d : x ≡ x % 2 + x / 2 * 2 = omega arith in ap (λ (y : ℕ). y * t) d ∙ grind arith

gf2_loop-Operator :
    (fuel n : ℕ) (mat : List ℕ) (v sum i : ℕ)
    → Operator n mat
    → v < 2 ^ fuel
    → i + fuel ≤ 32
    → gf2_loop fuel mat v sum i ≡ bit_xor sum (next_bits n (v * 2 ^ i))
unfolding gf2_loop
gf2_loop-Operator zero n mat v sum i o h g =
    let e : v * 2 ^ i ≡ 0 =
      let z : v ≡ 0 = omega arith in ap (λ (t : ℕ). t * 2 ^ i) z ∙ omega arith in
    sym (
      ap (λ t. bit_xor sum (next_bits n t)) e
      ∙ ap (bit_xor sum) (next_bits-zero n)
      ∙ bit_xor-zero sum)
gf2_loop-Operator (suc fuel) n mat v sum i o h g = elim (Bool-cases (v == 0)) [
  | inl none ↦
      let z : v ≡ 0 = (==_iff v 0).0 none in
      let e : v * 2 ^ i ≡ 0 = ap (λ (t : ℕ). t * 2 ^ i) z ∙ omega arith in
      rw none (
        sym (
          ap (λ t. bit_xor sum (next_bits n t)) e
          ∙ ap (bit_xor sum) (next_bits-zero n)
          ∙ bit_xor-zero sum))
  | inr some_left ↦
      let term = next_bits n (v % 2 * 2 ^ i) in
      rw (some_left, bit_and_mask 1 v)
        (gf2_loop-Operator fuel n mat (v / 2)
            (if not (v % 2 == 0) then bit_xor sum (get_or mat i 0) else sum) (i + 1) o
            (omega (arith, pow-suc 2 fuel)) (omega arith)
          ∙ ap (λ t. bit_xor t (next_bits n (v / 2 * 2 ^ (i + 1))))
              (digit_term n i (v % 2) mat sum o (omega arith) (omega arith))
          ∙ bit_xor_assoc sum term (next_bits n (v / 2 * 2 ^ (i + 1)))
          ∙ ap (bit_xor sum) (sym (vector_step n v i)))
]

pub gf2_matrix_times-Operator :
    (n : ℕ) (mat : List ℕ) (v : ℕ)
    → Operator n mat
    → v < 2 ^ 32
    → gf2_matrix_times mat v ≡ next_bits n v
unfolding gf2_matrix_times
gf2_matrix_times-Operator n mat v o h =
    let e : v * 2 ^ 0 ≡ v = omega arith in
    gf2_loop-Operator 32 n mat v 0 0 o h (omega arith)
    ∙ bit_xor_comm 0 (next_bits n (v * 2 ^ 0))
    ∙ bit_xor-zero (next_bits n (v * 2 ^ 0))
    ∙ ap (next_bits n) e

pub square-Operator :
    (n : ℕ) (mat : List ℕ) → Operator n mat → Operator (n + n) (gf2_matrix_square mat)
unfolding gf2_matrix_square
square-Operator n mat o = record {
  size = length-map (gf2_matrix_times mat) mat ∙ o.size;
  column = λ i h.
      get_or-map (gf2_matrix_times mat) mat i 0 0 (omega (arith, o.size))
      ∙ ap (gf2_matrix_times mat) (o.column i h)
      ∙ gf2_matrix_times-Operator n mat (next_bits n (2 ^ i)) o (
          next_bits-lt n (2 ^ i)
            (omega (arith, two_pow_mono (i + 1) 32 (omega arith), two_pow_add i 1, two_pow_pos i)))
      ∙ sym (next_bits-add n n (2 ^ i));
}

length-shifted_rows : (n row : ℕ) → length (shifted_rows n row) ≡ n
unfolding shifted_rows
length-shifted_rows zero row = refl
length-shifted_rows (suc n) row = ap suc (length-shifted_rows n (shl32 row 1))

shifted_rows-entry :
    (n row i k : ℕ)
    → i < n
    → row ≡ 2 ^ k
    → k + n ≤ 32
    → get_or (shifted_rows n row) i 0 ≡ 2 ^ (k + i)
unfolding shifted_rows
shifted_rows-entry zero row i k h e g = absurd (omega arith)
shifted_rows-entry (suc n) row zero k h e g =
    let z : k ≡ k + 0 = omega arith in e ∙ ap (λ (t : ℕ). 2 ^ t) z
shifted_rows-entry (suc n) row (suc i) k h e g =
    let next : shl32 row 1 ≡ 2 ^ (k + 1) =
      omega (arith, e, two_pow_add k 1, two_pow_mono (k + 1) 31 (omega arith)) in
    let z : k + 1 + i ≡ k + suc i = omega arith in
    shifted_rows-entry n (shl32 row 1) i (k + 1) (omega arith) next (omega arith)
    ∙ ap (λ (t : ℕ). 2 ^ t) z

pub one_zero_bit-Operator : Operator 1 one_zero_bit
unfolding one_zero_bit next_bits next_bit
one_zero_bit-Operator = record { size = ap suc (length-shifted_rows 31 1); column = columns }
  where
    columns : (i : ℕ) → i < 32 → get_or (crc32_poly ∷ shifted_rows 31 1) i 0 ≡ next_bits 1 (2 ^ i)
    columns zero h = refl
    columns (suc i) h =
        let z : 0 + i ≡ i = omega arith in
        let e : 2 ^ i * 2 ^ 1 ≡ 2 ^ suc i = omega (arith, pow-suc 2 i) in
        shifted_rows-entry 31 1 i 0 (omega arith) refl (omega arith)
        ∙ ap (λ (t : ℕ). 2 ^ t) z
        ∙ sym (next_bits-shift 1 (2 ^ i))
        ∙ ap (next_bits 1) e

half_digits : (n m : ℕ) → m * 2 * n ≡ m * 2 * (n % 2) + m * 2 * 2 * (n / 2)
half_digits n m =
    let d : n ≡ n % 2 + n / 2 * 2 = omega arith in ap (λ (y : ℕ). m * 2 * y) d ∙ grind arith

times_digit :
    (m b : ℕ) (mat : List ℕ) (result : ℕ)
    → Operator m mat
    → b < 2
    → result < 2 ^ 32
    → (if not (b == 0) then gf2_matrix_times mat result else result) ≡ next_bits (m * b) result
unfolding next_bits
times_digit m zero mat result o h g =
    let z : 0 ≡ m * 0 = omega arith in ap (λ (t : ℕ). next_bits t result) z
times_digit m (suc zero) mat result o h g =
    let z : m ≡ m * 1 = omega arith in
    gf2_matrix_times-Operator m mat result o g ∙ ap (λ (t : ℕ). next_bits t result) z
times_digit m (suc (suc b)) mat result o h g = absurd (omega arith)

pub combine_loop-bits :
    (fuel m n : ℕ) (mat : List ℕ) (result : ℕ)
    → Operator m mat
    → 0 < n
    → n ≤ fuel
    → result < 2 ^ 32
    → combine_loop fuel mat result n ≡ next_bits (m * 2 * n) result
unfolding combine_loop
combine_loop-bits zero m n mat result o h g lt = absurd (omega arith)
combine_loop-bits (suc fuel) m n mat result o h g lt =
    let sq = gf2_matrix_square mat in
    let double : m + m ≡ m * 2 = omega arith in
    let o' : Operator (m * 2) sq = subst (λ t. Operator t sq) double (square-Operator m mat o) in
    let result' = if not (bit_and n 1 == 0) then gf2_matrix_times sq result else result in
    let now : result' ≡ next_bits (m * 2 * (n % 2)) result =
      ap (λ t. if not (t == 0) then gf2_matrix_times sq result else result) (bit_and_mask 1 n)
      ∙ times_digit (m * 2) (n % 2) sq result o' (omega arith) lt in
    let lt' : result' < 2 ^ 32 = omega (arith, now, next_bits-lt (m * 2 * (n % 2)) result lt) in
    let digits = half_digits n m in
    elim (Bool-cases (n / 2 == 0)) [
      | inl done ↦
          let z : n / 2 ≡ 0 = (==_iff (n / 2) 0).0 done in
          let whole : m * 2 * (n % 2) ≡ m * 2 * n =
            omega (arith, digits, ap (λ (t : ℕ). m * 2 * 2 * t) z) in
          ap (λ t. if t then result' else combine_loop fuel sq result' (n / 2)) done
          ∙ now
          ∙ ap (λ (t : ℕ). next_bits t result) whole
      | inr more ↦
          let pos : 0 < n / 2 = ground (arith, ==_iff (n / 2) 0) in
          ap (λ t. if t then result' else combine_loop fuel sq result' (n / 2)) more
          ∙ combine_loop-bits fuel (m * 2) (n / 2) sq result' o' pos (omega arith) lt'
          ∙ ap (next_bits (m * 2 * 2 * (n / 2))) now
          ∙ sym (next_bits-add (m * 2 * (n % 2)) (m * 2 * 2 * (n / 2)) result)
          ∙ ap (λ (t : ℕ). next_bits t result) (sym digits)
    ]
