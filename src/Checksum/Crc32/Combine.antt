-- ===== src/Checksum/Crc32/Combine.antt =====
-- `crc32`, `crc32_combine` and the hasher of src/checksum/crc32.rs on inputs in a row.
use native.Mathlib.Nat.{mod-eq_of_lt}
use zenflate.Prelude.{
  ℕ, zero, suc, ◌+◌, ◌*◌, ◌%◌, ◌^◌, ◌<◌, bit_xor, List, [], ◌∷◌, ◌++◌, length, All, All-append,
  length-append, arith, ◌≡◌, refl, ap, ◌∙◌, sym, if◌then◌else◌, ne→==,
}
use zenflate.Prelude.Words.{IsByte, from_le_bytes}
use zenflate.Prelude.Bits.Xor.{bit_xor-zero, bit_xor_self, bit_xor_comm, bit_xor_assoc, bit_xor-lt}
use zenflate.Checksum.Crc32.{
  not32, next_bits, crc32, one_zero_bit, gf2_matrix_square, combine_loop, crc32_combine,
  Crc32Hasher, new, update, finalize, combine,
}
use zenflate.Checksum.Adler32.Combine.{concat, concat-IsByte}
use zenflate.Checksum.Crc32.Linear.{next_bits-xor}
use zenflate.Checksum.Crc32.Register.{
  register, register-append, register-lt, register-word, crc32_slice8-register,
}
use zenflate.Checksum.Crc32.Matrix.{square-Operator, one_zero_bit-Operator, combine_loop-bits}

not32-twice : (c : ℕ) → not32 (not32 c) ≡ c
unfolding not32
not32-twice c = bit_xor_assoc c 0xffffffff 0xffffffff ∙ bit_xor-zero c

not32-lt : (c : ℕ) → c < 2 ^ 32 → not32 c < 2 ^ 32
unfolding not32
not32-lt c h = bit_xor-lt 32 c 0xffffffff h (omega arith)

-- From any u32 and over any bytes, `crc32` is the CRC-32 register between two complements.
pub crc32-register :
    (crc : ℕ) (bytes : List ℕ)
    → crc < 2 ^ 32
    → All IsByte bytes
    → crc32 crc bytes ≡ not32 (register (not32 crc) bytes)
unfolding crc32
crc32-register crc [] h hb = sym (not32-twice crc)
crc32-register crc (b ∷ bytes) h hb =
    ap not32 (crc32_slice8-register (not32 crc) (b ∷ bytes) (not32-lt crc h) hb)

pub crc32-lt :
    (crc : ℕ) (bytes : List ℕ) → crc < 2 ^ 32 → All IsByte bytes → crc32 crc bytes < 2 ^ 32
crc32-lt crc bytes h hb = omega (
  arith,
  crc32-register crc bytes h hb,
  not32-lt (register (not32 crc) bytes) (register-lt (not32 crc) bytes (not32-lt crc h) hb),
)

-- From any u32, and for bytes, a running CRC-32 does not depend on how the input is cut into two
-- calls.
pub crc32-append :
    (crc : ℕ) (xs ys : List ℕ)
    → crc < 2 ^ 32
    → All IsByte xs
    → All IsByte ys
    → crc32 (crc32 crc xs) ys ≡ crc32 crc (xs ++ ys)
crc32-append crc xs ys h hx hy =
    crc32-register (crc32 crc xs) ys (crc32-lt crc xs h hx) hy
    ∙ ap (λ t. not32 (register (not32 t) ys)) (crc32-register crc xs h hx)
    ∙ ap (λ t. not32 (register t ys)) (not32-twice (register (not32 crc) xs))
    ∙ ap not32 (sym (register-append (not32 crc) xs ys))
    ∙ sym (crc32-register crc (xs ++ ys) h (All-append IsByte xs ys hx hy))

crc32_combine-bits :
    (crc1 crc2 n : ℕ)
    → crc1 < 2 ^ 32
    → (n ≡ 0 → crc2 ≡ 0)
    → crc32_combine crc1 crc2 n ≡ bit_xor (next_bits (8 * n) crc1) crc2
unfolding crc32_combine
crc32_combine-bits crc1 crc2 zero h empty =
    sym (unfold next_bits in ap (bit_xor crc1) (empty refl) ∙ bit_xor-zero crc1)
crc32_combine-bits crc1 crc2 (suc n) h empty =
    let o2 = square-Operator 1 one_zero_bit one_zero_bit-Operator in
    let o4 = square-Operator 2 (gf2_matrix_square one_zero_bit) o2 in
    let four = gf2_matrix_square (gf2_matrix_square one_zero_bit) in
    let e : 4 * 2 * suc n ≡ 8 * suc n = omega arith in
    ap (λ t. if t then crc1 else bit_xor (combine_loop (suc n) four crc1 (suc n)) crc2)
      (ne→== (suc n) 0 (λ z. absurd (omega arith)))
    ∙ ap (λ t. bit_xor t crc2)
        (combine_loop-bits (suc n) 4 (suc n) four crc1 o4 (omega arith) (omega arith) h
          ∙ ap (λ (t : ℕ). next_bits t crc1) e)

-- The register over bytes, from the two parts that it is linear in.
register-parts :
    (c : ℕ) (ys : List ℕ)
    → All IsByte ys
    → register c ys
      ≡ bit_xor (next_bits (8 * length ys) c) (next_bits (8 * length ys) (from_le_bytes ys))
register-parts c ys hy = register-word c ys hy ∙ next_bits-xor (8 * length ys) c (from_le_bytes ys)

-- A complement on each side goes out again.
cancel : (a b v o : ℕ) → bit_xor (bit_xor a b) (bit_xor (bit_xor b v) o) ≡ bit_xor (bit_xor a v) o
cancel a b v o =
    bit_xor_assoc a b (bit_xor (bit_xor b v) o)
    ∙ ap (bit_xor a) (
        ap (bit_xor b) (bit_xor_assoc b v o)
        ∙ sym (bit_xor_assoc b b (bit_xor v o))
        ∙ ap (λ t. bit_xor t (bit_xor v o)) (bit_xor_self b)
        ∙ bit_xor_comm 0 (bit_xor v o)
        ∙ bit_xor-zero (bit_xor v o))
    ∙ sym (bit_xor_assoc a v o)

crc32-empty : (ys : List ℕ) → length ys ≡ 0 → crc32 0 ys ≡ 0
unfolding crc32
crc32-empty [] z = refl
crc32-empty (b ∷ ys) z = absurd (omega arith)

-- The checksums of two inputs of bytes, each from 0, combine to that of the inputs in a row, with
-- the length of the second alone.
pub crc32_combine_lem :
    (xs ys : List ℕ)
    → All IsByte xs
    → All IsByte ys
    → crc32_combine (crc32 0 xs) (crc32 0 ys) (length ys) ≡ crc32 0 (xs ++ ys)
unfolding not32
crc32_combine_lem xs ys hx hy =
    let o : ℕ = 0xffffffff in
    let a = register (not32 0) xs in
    let n = 8 * length ys in
    let v = next_bits n (from_le_bytes ys) in
    let e1 = crc32-register 0 xs (omega arith) hx in
    let e2 = crc32-register 0 ys (omega arith) hy in
    crc32_combine-bits (crc32 0 xs) (crc32 0 ys) (length ys) (crc32-lt 0 xs (omega arith) hx)
      (crc32-empty ys)
    ∙ ap (λ t. bit_xor (next_bits n t) (crc32 0 ys)) e1
    ∙ ap (bit_xor (next_bits n (not32 a))) (e2 ∙ ap not32 (register-parts (not32 0) ys hy))
    ∙ ap (λ t. bit_xor t (not32 (bit_xor (next_bits n o) v))) (next_bits-xor n a o)
    ∙ cancel (next_bits n a) (next_bits n o) v o
    ∙ ap not32 (sym (register-parts a ys hy) ∙ sym (register-append (not32 0) xs ys))
    ∙ sym (crc32-register 0 (xs ++ ys) (omega arith) (All-append IsByte xs ys hx hy))

crc32-nothing : (crc : ℕ) → crc32 crc [] ≡ crc
unfolding crc32
crc32-nothing crc = refl

abbrev pub feed : Crc32Hasher → List (List ℕ) → Crc32Hasher
feed h [] = h
feed h (piece ∷ pieces) = feed (update h piece) pieces

feed-finalize :
    (h : Crc32Hasher) (pieces : List (List ℕ))
    → h.crc < 2 ^ 32
    → All (All IsByte) pieces
    → finalize (feed h pieces) ≡ crc32 h.crc (concat pieces)
unfolding finalize update
feed-finalize h [] v hp = sym (crc32-nothing h.crc)
feed-finalize h (p ∷ ps) v (hb, hp) =
    feed-finalize (update h p) ps (crc32-lt h.crc p v hb) hp
    ∙ crc32-append h.crc p (concat ps) v hb (concat-IsByte ps hp)

feed-amount :
    (h : Crc32Hasher) (pieces : List (List ℕ))
    → h.amount + length (concat pieces) < 2 ^ 64
    → (feed h pieces).amount ≡ h.amount + length (concat pieces)
unfolding update
feed-amount h [] k = omega arith
feed-amount h (p ∷ ps) k =
    let e = length-append p (concat ps) in
    feed-amount (update h p) ps (omega (arith, e)) ∙ omega (arith, e)

-- Two hashers, each fed pieces of bytes from `new`, the second fewer of them than a u64 and than a
-- usize of the target count, combine to a hasher whose checksum is that of all the pieces in a row.
pub finalize-combine :
    (usize_bits : ℕ) (ps qs : List (List ℕ))
    → All (All IsByte) ps
    → All (All IsByte) qs
    → length (concat qs) < 2 ^ 64
    → length (concat qs) < 2 ^ usize_bits
    → finalize (combine usize_bits (feed new ps) (feed new qs)) ≡ crc32 0 (concat ps ++ concat qs)
unfolding finalize combine new
finalize-combine usize_bits ps qs hp hq k fits =
    ap (λ t. crc32_combine t (feed new qs).crc ((feed new qs).amount % 2 ^ usize_bits))
      (feed-finalize new ps (omega arith) hp)
    ∙ ap (λ t. crc32_combine (crc32 0 (concat ps)) t ((feed new qs).amount % 2 ^ usize_bits))
        (feed-finalize new qs (omega arith) hq)
    ∙ ap (crc32_combine (crc32 0 (concat ps)) (crc32 0 (concat qs))) (
        ap (λ (a : ℕ). a % 2 ^ usize_bits) (feed-amount new qs (omega arith) ∙ omega arith)
        ∙ mod-eq_of_lt fits)
    ∙ crc32_combine_lem (concat ps) (concat qs) (concat-IsByte ps hp) (concat-IsByte qs hq)
