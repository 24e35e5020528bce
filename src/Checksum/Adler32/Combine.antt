-- ===== src/Checksum/Adler32/Combine.antt =====
-- `adler32` over split input, `adler32_combine`, and the hasher.
use native.Mathlib.Nat.{mod-eq_of_lt}
use zenflate.Prelude.{
  ℕ, ◌+◌, ◌-◌, ◌*◌, ◌/◌, ◌%◌, ◌^◌, ◌≤◌, ◌<◌, ◌≡◌, refl, sym, ap, ◌∙◌, List, [], ◌∷◌, ◌++◌, length,
  All, All-append, length-append, arith,
}
use zenflate.Prelude.Arith.{mul_mono}
use zenflate.Prelude.Bits.{bit_and_mask}
use zenflate.Checksum.Adler32.{
  divisor, adler32, adler32_combine, Adler32Hasher, new, write, finish, combine,
}
use zenflate.Checksum.Adler32.Chunk.{IsByte}
use zenflate.Checksum.Adler32.Scalar.{
  IsAdler, adler32_scalar-exact, pack-exact, sums_after, sums_after-append,
}

pub adler32-exact :
    (adler : ℕ) (bytes : List ℕ)
    → IsAdler adler
    → All IsByte bytes
    → adler32 adler bytes
      ≡ (sums_after (adler % 2 ^ 16) (adler / 2 ^ 16) bytes).0
        + (sums_after (adler % 2 ^ 16) (adler / 2 ^ 16) bytes).1 * 2 ^ 16
unfolding adler32
adler32-exact = adler32_scalar-exact

pub adler32-IsAdler :
    (adler : ℕ) (bytes : List ℕ) → IsAdler adler → All IsByte bytes → IsAdler (adler32 adler bytes)
adler32-IsAdler adler bytes h hb = rw (adler32-exact adler bytes h hb) (omega arith)

-- The two halves of a checksum of the form that `adler32-exact` gives.
halves : (a b : ℕ) → a < 2 ^ 16 → ((a + b * 2 ^ 16) % 2 ^ 16 ≡ a) × ((a + b * 2 ^ 16) / 2 ^ 16 ≡ b)
halves a b h = (omega arith, omega arith)

join : ℕ × ℕ → ℕ
join (a, b) = a + b * 2 ^ 16

adler32-join :
    (a b : ℕ) (bytes : List ℕ)
    → a < divisor
    → b < divisor
    → All IsByte bytes
    → adler32 (join (a, b)) bytes ≡ join (sums_after a b bytes)
unfolding join
adler32-join a b bytes h k hb =
    let (e, f) = halves a b (omega arith) in
    let valid : IsAdler (a + b * 2 ^ 16) = (omega arith, omega arith) in
    rw (adler32-exact (a + b * 2 ^ 16) bytes valid hb, e, f) refl

adler32_one : (bytes : List ℕ) → All IsByte bytes → adler32 1 bytes ≡ join (sums_after 1 0 bytes)
unfolding join
adler32_one bytes hb = adler32-join 1 0 bytes (omega arith) (omega arith) hb

-- From a valid checksum, and for bytes, a running checksum does not depend on how the input is
-- cut into two calls.
pub adler32-append :
    (adler : ℕ) (xs ys : List ℕ)
    → IsAdler adler
    → All IsByte xs
    → All IsByte ys
    → adler32 (adler32 adler xs) ys ≡ adler32 adler (xs ++ ys)
adler32-append adler xs ys h hx hy =
    let s1 = adler % 2 ^ 16 in
    let s2 = adler / 2 ^ 16 in
    ap (λ t. adler32 t ys) (adler32-exact adler xs h hx)
    ∙ unfold join in
      adler32-join _ _ ys (omega arith) (omega arith) hy
      ∙ ap join (sums_after-append s1 s2 xs ys)
      ∙ sym (adler32-exact adler (xs ++ ys) h (All-append IsByte xs ys hx hy))

combine-join :
    (a b c d n : ℕ)
    → a < divisor
    → b < divisor
    → c < divisor
    → d < divisor
    → adler32_combine (join (a, b)) (join (c, d)) n
      ≡ join (
        (a + c + divisor - 1) % divisor,
        (b + d + n % divisor * a + 2 * divisor - n % divisor) % divisor,
      )
unfolding adler32_combine join
combine-join a b c d n ha hb hc hd =
    let (e, f) = halves a b (omega arith) in
    let (g, h) = halves c d (omega arith) in
    let bound : n % divisor * a ≤ 65520 * 65520 =
      mul_mono (n % divisor) a 65520 65520 (omega arith) (omega arith) in
    rw (bit_and_mask 16 (a + b * 2 ^ 16), e, bit_and_mask 16 (c + d * 2 ^ 16), g)
      (rw (f, h) (pack-exact _ _ (omega arith) (omega arith) ∙ omega arith))

-- The checksums of two inputs of bytes, each from 1, combine to that of the inputs in a row,
-- with the length of the second alone.
pub adler32_combine_lem :
    (xs ys : List ℕ)
    → All IsByte xs
    → All IsByte ys
    → adler32_combine (adler32 1 xs) (adler32 1 ys) (length ys) ≡ adler32 1 (xs ++ ys)
adler32_combine_lem xs ys hx hy =
    let (a, b) = sums_after 1 0 xs in
    let (c, d) = sums_after 1 0 ys in
    let n = length ys in
    let e : n ≡ n / divisor * divisor + n % divisor = omega arith in
    let f : n * a ≡ n / divisor * a * divisor + n % divisor * a =
      ap (λ (t : ℕ). t * a) e ∙ omega arith in
    let le : n % divisor ≤ n % divisor * a + divisor = omega arith in
    ap (λ t. adler32_combine t (adler32 1 ys) n) (adler32_one xs hx)
    ∙ ap (λ t. adler32_combine (join (a, b)) t n) (adler32_one ys hy)
    ∙ combine-join a b c d n (omega arith) (omega arith) (omega arith) (omega arith)
    ∙ ap join (ground arith)
    ∙ ap join (sums_after-append 1 0 xs ys)
    ∙ sym (adler32_one (xs ++ ys) (All-append IsByte xs ys hx hy))

abbrev pub feed : Adler32Hasher → List (List ℕ) → Adler32Hasher
feed h [] = h
feed h (piece ∷ pieces) = feed (write h piece) pieces

abbrev pub concat : List (List ℕ) → List ℕ
concat [] = []
concat (piece ∷ pieces) = piece ++ concat pieces

pub concat-IsByte : (pieces : List (List ℕ)) → All (All IsByte) pieces → All IsByte (concat pieces)
concat-IsByte [] h = tt
concat-IsByte (p ∷ ps) (h, hs) = All-append IsByte p (concat ps) h (concat-IsByte ps hs)

feed-finish :
    (h : Adler32Hasher) (pieces : List (List ℕ))
    → IsAdler h.checksum
    → All (All IsByte) pieces
    → finish (feed h pieces) ≡ adler32 h.checksum (concat pieces)
unfolding finish write
feed-finish h [] v hp = omega (arith, adler32-exact h.checksum [] v tt)
feed-finish h (p ∷ ps) v (hb, hp) =
    feed-finish (write h p) ps (adler32-IsAdler h.checksum p v hb) hp
    ∙ adler32-append h.checksum p (concat ps) v hb (concat-IsByte ps hp)

feed-amount :
    (h : Adler32Hasher) (pieces : List (List ℕ))
    → h.amount + length (concat pieces) < 2 ^ 64
    → (feed h pieces).amount ≡ h.amount + length (concat pieces)
unfolding write
feed-amount h [] k = omega arith
feed-amount h (p ∷ ps) k =
    let e = length-append p (concat ps) in
    let here : (h.amount + length p) % 2 ^ 64 ≡ h.amount + length p = omega arith in
    omega (arith, feed-amount (write h p) ps (omega arith))

-- Two hashers, each fed pieces of bytes from `new`, the second fewer of them than a u64 and than a
-- usize of the target count, combine to a hasher whose checksum is that of all the pieces in a row.
pub combine-feed :
    (usize_bits : ℕ) (ps qs : List (List ℕ))
    → All (All IsByte) ps
    → All (All IsByte) qs
    → length (concat qs) < 2 ^ 64
    → length (concat qs) < 2 ^ usize_bits
    → finish (combine usize_bits (feed new ps) (feed new qs)) ≡ adler32 1 (concat ps ++ concat qs)
unfolding finish combine new
combine-feed usize_bits ps qs hp hq k fits =
    let valid : IsAdler 1 = (omega arith, omega arith) in
    ap (λ t. adler32_combine t (feed new qs).checksum ((feed new qs).amount % 2 ^ usize_bits))
      (feed-finish new ps valid hp)
    ∙ ap (λ t. adler32_combine (adler32 1 (concat ps)) t ((feed new qs).amount % 2 ^ usize_bits))
        (feed-finish new qs valid hq)
    ∙ ap (adler32_combine (adler32 1 (concat ps)) (adler32 1 (concat qs))) (
        ap (λ (a : ℕ). a % 2 ^ usize_bits) (feed-amount new qs (omega arith) ∙ omega arith)
        ∙ mod-eq_of_lt fits)
    ∙ adler32_combine_lem (concat ps) (concat qs) (concat-IsByte ps hp) (concat-IsByte qs hq)
