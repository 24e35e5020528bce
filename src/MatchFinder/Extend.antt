-- ===== src/MatchFinder/Extend.antt =====
-- `lz_extend_word` of src/matchfinder/mod.rs, against a comparison byte by byte.
use zenflate.Prelude.{
  ℕ, zero, suc, ◌+◌, ◌-◌, ◌*◌, ◌/◌, ◌≤◌, ◌<◌, ◌≢◌, bit_xor, List, length, get_or, take, drop, All,
  All-take, All-drop, leb, ltb, ◌==◌, arith, ◌≡◌, refl, sym, ap, ◌∙◌, inl, inr, Bool-cases, ==_iff,
  ltb→lt, ltb→ge, leb→le, ge→ltb, length-take, length-drop,
}
use zenflate.Prelude.Bits.Xor.{bit_xor_self}
use zenflate.Prelude.Words.{IsByte, from_le_bytes}
use zenflate.Outcome.{ok}
use zenflate.Decompress.Refill.{load_u64_le}
use zenflate.Decompress.Output.Fast.{read-ok}
use zenflate.MatchFinder.{trailing_zeros, extend_bytes, load_xor, extend_words, lz_extend_word}
use zenflate.MatchFinder.Zeros.{trailing_zeros-common}
use zenflate.MatchFinder.Matching.{
  matching, common-matching, matching-le, matching-stops, matching-goes_on, common-all, zero_word,
}

module _ {ℓ} (E : Type ℓ) (s m : List ℕ) (max : ℕ) where
  extend_bytes-matching :
      (fuel len : ℕ)
      → max ≤ length s
      → max ≤ length m
      → len ≤ max
      → max < len + fuel
      → extend_bytes {E = E} fuel s m len max ≡ ok (len + matching (max - len) s m len)
  unfolding extend_bytes
  extend_bytes-matching zero len hs hm le enough = absurd (omega (arith, le, enough))
  extend_bytes-matching (suc fuel) len hs hm le enough = elim (Bool-cases (ltb len max)) [
    | inr a ↦
        let z : max - len ≡ 0 = omega (arith, ltb→ge len max a) in
        let e : len ≡ len + matching (max - len) s m len =
          omega (arith, ap (λ (t : ℕ). matching t s m len) z) in
        rw a (ap (λ (t : ℕ). ok t) e)
    | inl a ↦
        let lt = ltb→lt len max a in
        let k = max - (len + 1) in
        let more : max - len ≡ suc k = omega (arith, lt) in
        let first = read-ok E s len (omega (arith, lt, hs)) in
        let second = read-ok E m len (omega (arith, lt, hm)) in
        rw (a, first, second, more)
          (elim (Bool-cases (get_or s len 0 == get_or m len 0)) [
            | inl b ↦ rw b (
                extend_bytes-matching fuel (len + 1) hs hm (omega (arith, lt))
                  (omega (arith, enough))
                ∙ ap (λ (t : ℕ). ok t) (omega arith))
            | inr b ↦ rw b (ap (λ (t : ℕ). ok t) (omega arith))
          ])
  ]

  load_xor-ok :
      (len : ℕ)
      → len + 8 ≤ length s
      → len + 8 ≤ length m
      → load_xor {E = E} s m len ≡ ok (bit_xor (load_u64_le s len) (load_u64_le m len))
  unfolding load_xor
  load_xor-ok len hs hm =
      rw
        (
          ge→ltb (length s) (len + 8) (omega (arith, hs)),
          ge→ltb (length m) (len + 8) (omega (arith, hm)),
        )
        refl

  zeros-matching :
      (len : ℕ)
      → All IsByte s
      → All IsByte m
      → len + 8 ≤ length s
      → len + 8 ≤ length m
      → trailing_zeros 64 (bit_xor (load_u64_le s len) (load_u64_le m len)) / 8 ≡ matching 8 s m len
  unfolding load_u64_le
  zeros-matching len bs bm hs hm =
      let xs = take 8 (drop len s) in
      let ys = take 8 (drop len m) in
      let eight : length xs ≡ 8 =
        omega (arith, length-take 8 (drop len s), length-drop len s, hs) in
      let same : length ys ≡ 8 = omega (arith, length-take 8 (drop len m), length-drop len m, hm) in
      let bits : 64 ≡ 8 * length xs = omega (arith, eight) in
      ap (λ (t : ℕ). trailing_zeros t (bit_xor (from_le_bytes xs) (from_le_bytes ys)) / 8) bits
      ∙ trailing_zeros-common xs ys (omega (arith, eight, same))
          (All-take IsByte 8 (drop len s) (All-drop IsByte len s bs))
          (All-take IsByte 8 (drop len m) (All-drop IsByte len m bm))
      ∙ common-matching 8 len s m hs hm

  -- Words that differ do not agree in all eight bytes.
  differ-matching :
      (len : ℕ)
      → len + 8 ≤ length s
      → len + 8 ≤ length m
      → bit_xor (load_u64_le s len) (load_u64_le m len) ≢ 0
      → matching 8 s m len < 8
  unfolding load_u64_le
  differ-matching len hs hm ne =
      let xs = take 8 (drop len s) in
      let ys = take 8 (drop len m) in
      let eight : length xs ≡ 8 =
        omega (arith, length-take 8 (drop len s), length-drop len s, hs) in
      let same : length ys ≡ 8 = omega (arith, length-take 8 (drop len m), length-drop len m, hm) in
      let as_common = common-matching 8 len s m hs hm in
      let le = matching-le 8 len s m in
      elim (Bool-cases (matching 8 s m len == 8)) [
        | inr a ↦ ground (arith, a, le)
        | inl a ↦
            let full : matching 8 s m len ≡ 8 = (==_iff (matching 8 s m len) 8).0 a in
            let equal : xs ≡ ys =
              common-all xs ys (omega (arith, eight, same)) (as_common ∙ full ∙ sym eight) in
            absurd (
              ne (
                ap (λ l. bit_xor (from_le_bytes l) (from_le_bytes ys)) equal
                ∙ bit_xor_self (from_le_bytes ys)))
      ]

  extend_words-matching :
      (fuel len : ℕ)
      → All IsByte s
      → All IsByte m
      → max ≤ length s
      → max ≤ length m
      → len ≤ max
      → max < len + fuel
      → extend_words {E = E} fuel s m len max ≡ ok (len + matching (max - len) s m len)
  unfolding extend_words
  extend_words-matching zero len bs bm hs hm le enough = absurd (omega (arith, le, enough))
  extend_words-matching (suc fuel) len bs bm hs hm le enough =
      elim (Bool-cases (leb (len + 8) max)) [
        | inr a ↦ rw a (extend_bytes-matching (suc fuel) len hs hm le enough)
        | inl a ↦
            let room = leb→le (len + 8) max a in
            let j = max - (len + 8) in
            let parts : max - len ≡ 8 + j = omega (arith, room) in
            let xor = bit_xor (load_u64_le s len) (load_u64_le m len) in
            let loaded = load_xor-ok len (omega (arith, room, hs)) (omega (arith, room, hm)) in
            let zeros =
              zeros-matching len bs bm (omega (arith, room, hs)) (omega (arith, room, hm)) in
            elim (Bool-cases (xor == 0)) [
              | inl b ↦
                  let z : xor ≡ 0 = (==_iff xor 0).0 b in
                  let full : matching 8 s m len ≡ 8 =
                    sym zeros ∙ ap (λ (t : ℕ). trailing_zeros 64 t / 8) z ∙ zero_word in
                  let goes_on = matching-goes_on 8 j len s m full in
                  rw (a, loaded, b, parts)
                    (extend_words-matching fuel (len + 8) bs bm hs hm room (omega (arith, enough))
                      ∙ ap (λ (t : ℕ). ok t) (omega (arith, goes_on)))
              | inr b ↦
                  let short =
                    differ-matching len (omega (arith, room, hs)) (omega (arith, room, hm))
                      (λ z. ground (arith, b, z)) in
                  let stops = matching-stops 8 j len s m short in
                  rw (a, loaded, b, parts)
                    (ap (λ (t : ℕ). ok t) (omega (arith, stops, short, zeros, room)))
            ]
      ]

-- `lz_extend_word` gives the length up to which the two sequences agree, from `start_len` on and up
-- to `max_len`, as a comparison byte by byte does. Both have `max_len` bytes at least.
pub lz_extend_word-matching {ℓ} :
    (E : Type ℓ) (strptr matchptr : List ℕ) (start_len max_len : ℕ)
    → All IsByte strptr
    → All IsByte matchptr
    → max_len ≤ length strptr
    → max_len ≤ length matchptr
    → start_len ≤ max_len
    → lz_extend_word {E = E} strptr matchptr start_len max_len
      ≡ ok (start_len + matching (max_len - start_len) strptr matchptr start_len)
unfolding lz_extend_word
lz_extend_word-matching E strptr matchptr start_len max_len bs bm hs hm le =
    extend_words-matching E strptr matchptr max_len (max_len + 1) start_len bs bm hs hm le
      (omega arith)
