-- ===== src/Checksum/Crc32/Register.antt =====
-- The slice-by-8 routine of src/checksum/crc32.rs against the register of CRC-32, a bit at a time.
use zenflate.Prelude.{
  ℕ, zero, suc, ◌+◌, ◌*◌, ◌/◌, ◌%◌, ◌^◌, ◌<◌, bit_xor, List, [], ◌∷◌, ◌++◌, length, take, drop, All,
  All-take, All-drop, take-append-drop, length-drop, arith, ◌≡◌, refl, ap, ◌∙◌, sym,
}
use native.Mathlib.Nat.{div-eq_of_lt, mod-eq_of_lt}
use zenflate.Prelude.Words.{IsByte, from_le_bytes, from_le_bytes-lt}
use zenflate.Prelude.Bits.Xor.{
  bit_xor-zero, bit_xor_comm, bit_xor_assoc, bit_xor-lt, bit_xor-div, bit_xor-mod, bit_xor_disjoint,
}
use zenflate.Checksum.Crc32.{
  next_bits, lookup, update_byte, lead_bytes, update_words, whole_chunks, crc32_slice8,
}
use zenflate.Checksum.Crc32.Linear.{
  next_bits-xor, next_bits-add, next_bits-zero, next_bits-shift, next_bits-split, next_bits-lt,
}
use zenflate.Checksum.Crc32.Slices.{lookup-entry}

-- The register of CRC-32: a byte is added to its low end, and eight bits are shifted out.
abbrev pub register : ℕ → List ℕ → ℕ
register crc [] = crc
register crc (b ∷ bytes) = register (next_bits 8 (bit_xor crc b)) bytes

pub register-append :
    (crc : ℕ) (xs ys : List ℕ) → register crc (xs ++ ys) ≡ register (register crc xs) ys
register-append crc [] ys = refl
register-append crc (x ∷ xs) ys = register-append (next_bits 8 (bit_xor crc x)) xs ys

pub register-lt :
    (crc : ℕ) (bytes : List ℕ) → crc < 2 ^ 32 → All IsByte bytes → register crc bytes < 2 ^ 32
register-lt crc [] h hb = h
register-lt crc (b ∷ bytes) h (lt, hb) =
    register-lt (next_bits 8 (bit_xor crc b)) bytes
      (next_bits-lt 8 (bit_xor crc b) (bit_xor-lt 32 crc b h (omega arith))) hb

-- All the bytes of a word at once.
pub register-word :
    (crc : ℕ) (bytes : List ℕ)
    → All IsByte bytes
    → register crc bytes ≡ next_bits (8 * length bytes) (bit_xor crc (from_le_bytes bytes))
unfolding from_le_bytes next_bits
register-word crc [] hb = sym (bit_xor-zero crc)
register-word crc (b ∷ bytes) (lt, hb) =
    let v = from_le_bytes bytes in
    let n = 8 * length bytes in
    let e : 8 * length (b ∷ bytes) ≡ 8 + n = omega arith in
    let f : b + 256 * v ≡ b + v * 2 ^ 8 = omega arith in
    register-word (next_bits 8 (bit_xor crc b)) bytes hb
    ∙ ap (λ t. next_bits n (bit_xor (next_bits 8 (bit_xor crc b)) t)) (sym (next_bits-shift 8 v))
    ∙ ap (next_bits n) (sym (next_bits-xor 8 (bit_xor crc b) (v * 2 ^ 8)))
    ∙ ap (λ t. next_bits n (next_bits 8 t))
        (bit_xor_assoc crc b (v * 2 ^ 8) ∙ ap (bit_xor crc) (bit_xor_disjoint 8 b v lt ∙ sym f))
    ∙ sym (next_bits-add 8 n (bit_xor crc (b + 256 * v)))
    ∙ ap (λ (t : ℕ). next_bits t (bit_xor crc (b + 256 * v))) (sym e)

update_byte-register : (crc b : ℕ) → b < 256 → update_byte crc b ≡ next_bits 8 (bit_xor crc b)
unfolding update_byte
update_byte-register crc b h =
    let i = bit_xor (crc % 256) b in
    let small = bit_xor-lt 8 (crc % 256) b (omega arith) h in
    let at : i ≡ 256 * 0 + i = omega arith in
    let up : bit_xor crc b / 2 ^ 8 ≡ crc / 2 ^ 8 =
      bit_xor-div 8 crc b
      ∙ ap (bit_xor (crc / 2 ^ 8)) (div-eq_of_lt h)
      ∙ bit_xor-zero (crc / 2 ^ 8) in
    let low : bit_xor crc b % 2 ^ 8 ≡ i =
      bit_xor-mod 8 crc b ∙ ap (bit_xor (crc % 256)) (mod-eq_of_lt h) in
    ap (bit_xor (crc / 2 ^ 8)) (ap (λ (t : ℕ). lookup t) at ∙ lookup-entry 0 i (omega arith) small)
    ∙ sym (
        next_bits-split 8 (bit_xor crc b)
        ∙ ap (λ t. bit_xor t (next_bits 8 (bit_xor crc b % 2 ^ 8))) up
        ∙ ap (λ t. bit_xor (crc / 2 ^ 8) (next_bits 8 t)) low)

lead_bytes-register :
    (crc : ℕ) (bytes : List ℕ) → All IsByte bytes → lead_bytes crc bytes ≡ register crc bytes
unfolding lead_bytes
lead_bytes-register crc [] hb = refl
lead_bytes-register crc (b ∷ bytes) (h, hb) =
    ap (λ t. lead_bytes t bytes) (update_byte-register crc b h)
    ∙ lead_bytes-register (next_bits 8 (bit_xor crc b)) bytes hb

-- The low byte of a word, by the table, and the rest of it.
next_bits-byte :
    (k t w : ℕ)
    → k < 8
    → t ≡ 8 + 8 * k
    → next_bits t w ≡ bit_xor (lookup (256 * k + w % 256)) (next_bits (8 * k) (w / 256))
next_bits-byte k t w h e =
    let low = w % 256 in
    let f : 8 + 8 * k ≡ 8 * (k + 1) = omega arith in
    ap (λ (x : ℕ). next_bits x w) e
    ∙ next_bits-add 8 (8 * k) w
    ∙ ap (next_bits (8 * k)) (next_bits-split 8 w ∙ bit_xor_comm (w / 256) (next_bits 8 low))
    ∙ next_bits-xor (8 * k) (next_bits 8 low) (w / 256)
    ∙ ap (λ x. bit_xor x (next_bits (8 * k) (w / 256)))
        (sym (next_bits-add 8 (8 * k) low)
          ∙ ap (λ (x : ℕ). next_bits x low) f
          ∙ sym (lookup-entry k low h (omega arith)))

-- The four bytes of a word that `n` bytes follow.
next_bits-word :
    (n t w : ℕ)
    → w < 2 ^ 32
    → n < 5
    → t ≡ 32 + 8 * n
    → next_bits t w
      ≡ bit_xor (lookup (256 * (n + 3) + w % 256)) (
          bit_xor (lookup (256 * (n + 2) + w / 2 ^ 8 % 256)) (
            bit_xor
              (lookup (256 * (n + 1) + w / 2 ^ 16 % 256))
              (lookup (256 * n + w / 2 ^ 24 % 256))))
next_bits-word n t w h g e =
    let w1 = w / 256 in
    let w2 = w1 / 256 in
    let w3 = w2 / 256 in
    let l3 = lookup (256 * (n + 3) + w % 256) in
    let l2 = lookup (256 * (n + 2) + w1 % 256) in
    let gone : w3 / 256 ≡ 0 = omega arith in
    let e2 : 256 * (n + 1) + w2 % 256 ≡ 256 * (n + 1) + w / 2 ^ 16 % 256 = omega arith in
    let e3 : 256 * n + w3 % 256 ≡ 256 * n + w / 2 ^ 24 % 256 = omega arith in
    let last : next_bits (8 * (n + 1)) w3 ≡ lookup (256 * n + w3 % 256) =
      next_bits-byte n (8 * (n + 1)) w3 (omega arith) (omega arith)
      ∙ ap (λ x. bit_xor (lookup (256 * n + w3 % 256)) (next_bits (8 * n) x)) gone
      ∙ ap (bit_xor (lookup (256 * n + w3 % 256))) (next_bits-zero (8 * n))
      ∙ bit_xor-zero (lookup (256 * n + w3 % 256)) in
    next_bits-byte (n + 3) t w (omega arith) (omega arith)
    ∙ ap (bit_xor l3) (
        next_bits-byte (n + 2) (8 * (n + 3)) w1 (omega arith) (omega arith)
        ∙ ap (bit_xor l2) (
            next_bits-byte (n + 1) (8 * (n + 2)) w2 (omega arith) (omega arith)
            ∙ ap (λ (x : ℕ). bit_xor (lookup x) (next_bits (8 * (n + 1)) w3)) e2
            ∙ ap (bit_xor (lookup (256 * (n + 1) + w / 2 ^ 16 % 256)))
                (last ∙ ap (λ (x : ℕ). lookup x) e3)))

eight_terms :
    (a b c d e f g h : ℕ)
    → bit_xor (bit_xor (bit_xor (bit_xor (bit_xor (bit_xor (bit_xor a b) c) d) e) f) g) h
      ≡ bit_xor (bit_xor a (bit_xor b (bit_xor c d))) (bit_xor e (bit_xor f (bit_xor g h)))
eight_terms a b c d e f g h = simp bit_xor_assoc refl

update_words-bits :
    (w v : ℕ)
    → w < 2 ^ 32
    → v < 2 ^ 32
    → update_words w v ≡ bit_xor (next_bits 64 w) (next_bits 32 v)
unfolding update_words
update_words-bits w v hw hv =
    let zero_row : 256 * 0 + v / 2 ^ 24 % 256 ≡ v / 2 ^ 24 % 256 = omega arith in
    rw
      (
        next_bits-word 4 64 w hw (omega arith) refl,
        next_bits-word 0 32 v hv (omega arith) refl,
        zero_row,
      )
      (eight_terms _ _ _ _ _ _ _ _)

-- One chunk is eight bytes through the register.
update_words-register :
    (crc : ℕ) (first second : List ℕ)
    → crc < 2 ^ 32
    → All IsByte first
    → All IsByte second
    → length first ≡ 4
    → length second ≡ 4
    → update_words (bit_xor crc (from_le_bytes first)) (from_le_bytes second)
      ≡ register (register crc first) second
update_words-register crc first second h hf hs ef es =
    let v1 = from_le_bytes first in
    let v2 = from_le_bytes second in
    let l1 = from_le_bytes-lt first hf in
    let l2 = from_le_bytes-lt second hs in
    let p1 : 2 ^ (8 * length first) ≡ 2 ^ 32 = ap (λ (t : ℕ). 2 ^ (8 * t)) ef in
    let p2 : 2 ^ (8 * length second) ≡ 2 ^ 32 = ap (λ (t : ℕ). 2 ^ (8 * t)) es in
    let w = bit_xor crc v1 in
    let four : register crc first ≡ next_bits 32 w =
      register-word crc first hf ∙ ap (λ (t : ℕ). next_bits (8 * t) w) ef in
    update_words-bits w v2 (bit_xor-lt 32 crc v1 h (omega (arith, l1, p1))) (omega (arith, l2, p2))
    ∙ ap (λ x. bit_xor x (next_bits 32 v2)) (next_bits-add 32 32 w ∙ ap (next_bits 32) (sym four))
    ∙ sym (next_bits-xor 32 (register crc first) v2)
    ∙ ap (λ (t : ℕ). next_bits (8 * t) (bit_xor (register crc first) v2)) (sym es)
    ∙ sym (register-word (register crc first) second hs)

whole_chunks-register :
    (n : ℕ) (crc : ℕ) (bytes : List ℕ)
    → length bytes ≡ 8 * n
    → crc < 2 ^ 32
    → All IsByte bytes
    → whole_chunks crc bytes ≡ register crc bytes
unfolding whole_chunks from_le_bytes
whole_chunks-register zero crc [] e h hb = refl
whole_chunks-register zero crc (b ∷ bytes) e h hb = absurd (omega arith)
whole_chunks-register (suc n) crc [] e h hb = absurd (omega arith)
whole_chunks-register (suc n) crc (a ∷ []) e h hb = absurd (omega arith)
whole_chunks-register (suc n) crc (a ∷ b ∷ []) e h hb = absurd (omega arith)
whole_chunks-register (suc n) crc (a ∷ b ∷ c ∷ []) e h hb = absurd (omega arith)
whole_chunks-register (suc n) crc (a ∷ b ∷ c ∷ d ∷ []) e h hb = absurd (omega arith)
whole_chunks-register (suc n) crc (a ∷ b ∷ c ∷ d ∷ f ∷ []) e h hb = absurd (omega arith)
whole_chunks-register (suc n) crc (a ∷ b ∷ c ∷ d ∷ f ∷ g ∷ []) e h hb = absurd (omega arith)
whole_chunks-register (suc n) crc (a ∷ b ∷ c ∷ d ∷ f ∷ g ∷ i ∷ []) e h hb = absurd (omega arith)
whole_chunks-register (suc n) crc (a ∷ b ∷ c ∷ d ∷ f ∷ g ∷ i ∷ j ∷ rest) e h
      (ha, (hb, (hc, (hd, (hf, (hg, (hi, (hj, hr)))))))) =
    let first = a ∷ b ∷ c ∷ d ∷ [] in
    let second = f ∷ g ∷ i ∷ j ∷ [] in
    let h1 : All IsByte first = (ha, (hb, (hc, (hd, tt)))) in
    let h2 : All IsByte second = (hf, (hg, (hi, (hj, tt)))) in
    let mid = register (register crc first) second in
    ap (λ t. whole_chunks t rest) (update_words-register crc first second h h1 h2 refl refl)
    ∙ whole_chunks-register n mid rest (omega arith)
        (register-lt (register crc first) second (register-lt crc first h h1) h2) hr

-- The slice-by-8 routine is the register, from any u32 and over any bytes.
pub crc32_slice8-register :
    (crc : ℕ) (bytes : List ℕ)
    → crc < 2 ^ 32
    → All IsByte bytes
    → crc32_slice8 crc bytes ≡ register crc bytes
unfolding crc32_slice8
crc32_slice8-register crc bytes h hb =
    let lead = length bytes % 8 in
    let front = take lead bytes in
    let back = drop lead bytes in
    let hf = All-take IsByte lead bytes hb in
    ap (λ t. whole_chunks t back) (lead_bytes-register crc front hf)
    ∙ whole_chunks-register (length bytes / 8) (register crc front) back
        (omega (arith, length-drop lead bytes)) (register-lt crc front h hf)
        (All-drop IsByte lead bytes hb)
    ∙ sym (register-append crc front back)
    ∙ ap (register crc) (take-append-drop lead bytes)
