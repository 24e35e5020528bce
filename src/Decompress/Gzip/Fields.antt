-- ===== src/Decompress/Gzip/Fields.antt =====
-- The optional fields of a gzip header before `gzip_decompress` of src/decompress/mod.rs.
use zenflate.Prelude.{
  ℕ, zero, suc, ◌+◌, ◌-◌, ◌*◌, ◌/◌, ◌%◌, ◌≤◌, ◌<◌, Option, none, some, List, [], ◌∷◌, ◌++◌, length,
  drop, get_or, All, arith, ◌≡◌, refl, sym, ap, ◌∙◌, length-append, length-drop, drop-drop,
  drop-append, append_assoc, get_or-drop, ge→ltb, lt→ltb, gt→leb, ne→==,
}
use zenflate.Outcome.{ok, DecompressionError, read, ◌>>=◌}
use zenflate.Decompress.Gzip.{has, fits, extra_field, skip_text, zero_terminated, header_crc}
use zenflate.Decompress.Gzip.Safe.{read-in_range}
use zenflate.Decompress.Gzip.Accepts.{given, extra_bytes, text_bytes, checksum_bytes}

-- What stands behind the bytes `xs` at `pos`.
pub drop-next :
    (input xs rest : List ℕ) (pos : ℕ)
    → drop pos input ≡ xs ++ rest
    → drop (pos + length xs) input ≡ rest
drop-next input xs rest pos h =
    sym (drop-drop pos (length xs) input) ∙ ap (drop (length xs)) h ∙ drop-append xs rest

pub length-at :
    (input xs : List ℕ) (pos : ℕ)
    → drop pos input ≡ xs
    → 0 < length xs
    → length input ≡ pos + length xs
length-at input xs pos h some_left =
    let e = length-drop pos input in let f = ap length h in omega (arith, e, f, some_left)

-- A text has no zero byte.
abbrev pub IsText : Option (List ℕ) → Type 0
IsText none = Unit {0}
IsText (some text) = All (λ b. 0 < b) text

module _ {ℓ} (R : Type ℓ) (input : List ℕ) where
  read-at :
      (pos b : ℕ) (rest : List ℕ)
      → drop pos input ≡ b ∷ rest
      → read {E = DecompressionError R} input pos ≡ ok b
  read-at pos b rest h =
      let e : pos + 0 ≡ pos = omega arith in
      let size = length-at input (b ∷ rest) pos h (omega arith) in
      read-in_range input pos (omega (arith, size))
      ∙ ap (λ (t : ℕ). ok (get_or input t 0)) (sym e)
      ∙ ap (λ (t : ℕ). ok t) (sym (get_or-drop pos 0 input 0) ∙ ap (λ l. get_or l 0 0) h)

  fits-ok : (pos need : ℕ) → pos + need ≤ length input → fits {R = R} input pos need ≡ ok pos
  unfolding fits
  fits-ok pos need h =
      rw
        (
          ge→ltb (length input) pos (omega (arith, h)),
          ge→ltb (length input - pos) need (omega (arith, h)),
        )
        refl

  pub extra_field-given :
      (flg pos : ℕ) (extra : Option (List ℕ)) (rest : List ℕ)
      → has flg 4 ≡ given extra
      → drop pos input ≡ extra_bytes extra ++ rest
      → 8 ≤ length rest
      → extra_field {R = R} input flg pos ≡ ok (pos + length (extra_bytes extra))
  unfolding extra_field
  extra_field-given flg pos none rest e h room = rw e (ap (λ (t : ℕ). ok t) (omega arith))
  extra_field-given flg pos (some bytes) rest e h room =
      let n = length bytes in
      let low = n % 256 in
      let high = n / 256 in
      let size = length-at input (extra_bytes (some bytes) ++ rest) pos h (omega arith) in
      let all = length-append bytes rest in
      let second = drop-next input (low ∷ []) (high ∷ (bytes ++ rest)) pos h in
      let xlen : low + 256 * high ≡ n = omega arith in
      rw
        (
          e,
          ge→ltb (length input) (pos + 2) (omega (arith, size)),
          read-at pos low _ h,
          read-at (pos + 1) high _ second,
        )
        (ap (λ (t : ℕ). fits input (pos + 2) (t + 8) >>= λ p. ok (p + t)) xlen
          ∙ ap (λ o. o >>= λ p. ok (p + n))
              (fits-ok (pos + 2) (n + 8) (omega (arith, size, all, room)))
          ∙ ap (λ (t : ℕ). ok t) (omega arith))

  skip_text-to_zero :
      (fuel pos : ℕ) (text rest : List ℕ)
      → All (λ b. 0 < b) text
      → drop pos input ≡ text ++ (0 ∷ rest)
      → length text < fuel
      → skip_text {R = R} input fuel pos ≡ ok (pos + length text)
  unfolding skip_text
  skip_text-to_zero zero pos text rest nonzero h enough = absurd (omega (arith, enough))
  skip_text-to_zero (suc fuel) pos [] rest nonzero h enough =
      let size = length-at input (0 ∷ rest) pos h (omega arith) in
      rw (lt→ltb pos (length input) (omega (arith, size)), read-at pos 0 rest h)
        (ap (λ (t : ℕ). ok t) (omega arith))
  skip_text-to_zero (suc fuel) pos (b ∷ text) rest (p, nonzero) h enough =
      let size = length-at input (b ∷ (text ++ (0 ∷ rest))) pos h (omega arith) in
      let next = drop-next input (b ∷ []) (text ++ (0 ∷ rest)) pos h in
      rw
        (
          lt→ltb pos (length input) (omega (arith, size)),
          read-at pos b (text ++ (0 ∷ rest)) h,
          ne→== b 0 (omega (arith, p)),
        )
        (skip_text-to_zero fuel (pos + 1) text rest nonzero next (omega (arith, enough))
          ∙ ap (λ (t : ℕ). ok t) (omega arith))

  pub zero_terminated-given :
      (flg mask pos : ℕ) (text : Option (List ℕ)) (rest : List ℕ)
      → has flg mask ≡ given text
      → IsText text
      → drop pos input ≡ text_bytes text ++ rest
      → 8 ≤ length rest
      → zero_terminated {R = R} input mask flg pos ≡ ok (pos + length (text_bytes text))
  unfolding zero_terminated
  zero_terminated-given flg mask pos none rest e nonzero h room =
      rw e (ap (λ (t : ℕ). ok t) (omega arith))
  zero_terminated-given flg mask pos (some text) rest e nonzero h room =
      let here : drop pos input ≡ text ++ (0 ∷ rest) = h ∙ append_assoc text (0 ∷ []) rest in
      let all = length-append text (0 ∷ rest) in
      let end = length-append text (0 ∷ []) in
      let size = length-at input (text ++ (0 ∷ rest)) pos here (omega (arith, all)) in
      rw
        (
          e,
          skip_text-to_zero (suc (length input)) pos text rest nonzero here
              (omega (arith, size, all)),
          gt→leb (length input) (pos + length text) (omega (arith, size, all)),
        )
        (fits-ok (pos + length text + 1) 8 (omega (arith, size, all, room))
          ∙ ap (λ (t : ℕ). ok t) (omega (arith, end)))

  pub header_crc-given :
      (flg pos : ℕ) (checksum : Option (ℕ × ℕ)) (rest : List ℕ)
      → has flg 2 ≡ given checksum
      → drop pos input ≡ checksum_bytes checksum ++ rest
      → 8 ≤ length rest
      → header_crc {R = R} input flg pos ≡ ok (pos + length (checksum_bytes checksum))
  unfolding header_crc
  header_crc-given flg pos none rest e h room = rw e (ap (λ (t : ℕ). ok t) (omega arith))
  header_crc-given flg pos (some c) rest e h room =
      let size = length-at input (checksum_bytes (some c) ++ rest) pos h (omega arith) in
      rw e (fits-ok (pos + 2) 8 (omega (arith, size, room)))
