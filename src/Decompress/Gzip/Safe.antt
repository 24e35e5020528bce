-- ===== src/Decompress/Gzip/Safe.antt =====
-- The header of `gzip_decompress` of src/decompress/mod.rs is read within bounds.
use zenflate.Prelude.{
  ℕ, zero, suc, ◌+◌, ◌-◌, ◌*◌, ◌≤◌, ◌<◌, List, [], ◌∷◌, length, get_or, leb, ltb, ◌==◌, not, ◌||◌,
  Bool, true, false, arith, ◌≡◌, refl, inl, inr, ◌⊎◌, Bool-cases, ltb→lt, ltb→ge, leb→gt, ge→ltb,
  if◌then◌else◌,
}
use zenflate.Outcome.{Outcome, ok, err, DecompressionError, read, invalid_header, ◌>>=◌}
use zenflate.Decompress.Gzip.{
  has, fits, extra_field, skip_text, zero_terminated, header_crc, optional_fields, gzip_header,
}

-- The call refuses the header, or comes to a place from 10 with `need` bytes behind it.
abbrev pub Settled {ℓ} : {R : Type ℓ} → ℕ → ℕ → Outcome (DecompressionError R) ℕ → Type ℓ
Settled need n o = (o ≡ err invalid_header) ⊎ ((p : ℕ) × (o ≡ ok p) × (10 ≤ p) × (p + need ≤ n))

pub read-in_range {ℓ} :
    {E : Type ℓ} (xs : List ℕ) (i : ℕ) → i < length xs → read {E = E} xs i ≡ ok (get_or xs i 0)
unfolding read
read-in_range [] i h = absurd (omega arith)
read-in_range (x ∷ xs) zero h = refl
read-in_range (x ∷ xs) (suc i) h = read-in_range xs i (omega arith)

module _ {ℓ} {R : Type ℓ} (n : ℕ) where
  Settled-ok : (need p : ℕ) → 10 ≤ p → p + need ≤ n → Settled {R = R} need n (ok p)
  Settled-ok need p lo hi = inr (p, refl, lo, hi)

  Settled-if :
      (need : ℕ) (b : Bool) (x y : Outcome (DecompressionError R) ℕ)
      → (b ≡ true → Settled need n x)
      → (b ≡ false → Settled need n y)
      → Settled need n (if b then x else y)
  Settled-if need true x y f g = f refl
  Settled-if need false x y f g = g refl

  Settled-then :
      (more need : ℕ) (m : Outcome (DecompressionError R) ℕ)
      (f : ℕ → Outcome (DecompressionError R) ℕ)
      → Settled more n m
      → ((p : ℕ) → 10 ≤ p → p + more ≤ n → Settled need n (f p))
      → Settled need n (m >>= f)
  Settled-then more need m f (inl e) k = rw e (inl refl)
  Settled-then more need m f (inr (p, e, lo, hi)) k = rw e (k p lo hi)

  Settled-read :
      (need i : ℕ) (input : List ℕ) (f : ℕ → Outcome (DecompressionError R) ℕ)
      → length input ≡ n
      → i < n
      → ((b : ℕ) → Settled need n (f b))
      → Settled need n (read input i >>= f)
  Settled-read need i input f e h k =
      rw (read-in_range {E = DecompressionError R} input i (omega (arith, e, h)))
        (k (get_or input i 0))

  fits-Settled :
      (input : List ℕ) (pos need : ℕ)
      → length input ≡ n
      → 10 ≤ pos
      → pos ≤ n
      → Settled need n (fits {R = R} input pos need)
  unfolding fits
  fits-Settled input pos need e lo hi = rw (ge→ltb (length input) pos (omega (arith, e, hi))) (
      Settled-if need (ltb (length input - pos) need) (err invalid_header) (ok pos) (λ h. inl refl)
        (λ h. Settled-ok need pos lo (omega (arith, e, hi, ltb→ge (length input - pos) need h))))

  extra_field-Settled :
      (input : List ℕ) (flg pos : ℕ)
      → length input ≡ n
      → 10 ≤ pos
      → pos + 8 ≤ n
      → Settled 8 n (extra_field {R = R} input flg pos)
  unfolding extra_field
  extra_field-Settled input flg pos e lo hi =
      Settled-if 8 (not (has flg 4)) (ok pos) _ (λ h. Settled-ok 8 pos lo hi)
        λ h.
          Settled-if 8 (ltb (length input) (pos + 2)) (err invalid_header) _ (λ g. inl refl)
            λ g. Settled-read 8 pos input _ e (omega (arith, hi)) λ low.
              Settled-read 8 (pos + 1) input _ e (omega (arith, hi)) λ high.
                let xlen = low + 256 * high in
                Settled-then (xlen + 8) 8 (fits input (pos + 2) (xlen + 8)) (λ p. ok (p + xlen))
                  (fits-Settled input (pos + 2) (xlen + 8) e (omega (arith, lo))
                    (omega (arith, hi)))
                  (λ p from room.
                    Settled-ok 8 (p + xlen) (omega (arith, from)) (omega (arith, room)))

  skip_text-Settled :
      (input : List ℕ) (fuel pos : ℕ)
      → length input ≡ n
      → 10 ≤ pos
      → pos ≤ n
      → n < pos + fuel
      → Settled 0 n (skip_text {R = R} input fuel pos)
  unfolding skip_text
  skip_text-Settled input zero pos e lo hi enough = absurd (omega (arith, hi, enough))
  skip_text-Settled input (suc fuel) pos e lo hi enough =
      elim (Bool-cases (ltb pos (length input))) [
        | inl a ↦
            let here : pos < n = omega (arith, e, ltb→lt pos (length input) a) in
            rw a (
              Settled-read 0 pos input _ e here λ b.
                Settled-if 0 (b == 0) (ok pos) _ (λ h. Settled-ok 0 pos lo (omega (arith, hi)))
                  λ h.
                    skip_text-Settled input fuel (pos + 1) e (omega (arith, lo))
                      (omega (arith, here)) (omega (arith, enough)))
        | inr a ↦ rw a (Settled-ok 0 pos lo (omega (arith, hi)))
      ]

  zero_terminated-Settled :
      (input : List ℕ) (mask flg pos : ℕ)
      → length input ≡ n
      → 10 ≤ pos
      → pos + 8 ≤ n
      → Settled 8 n (zero_terminated {R = R} input mask flg pos)
  unfolding zero_terminated
  zero_terminated-Settled input mask flg pos e lo hi =
      Settled-if 8 (not (has flg mask)) (ok pos) _ (λ h. Settled-ok 8 pos lo hi)
        λ h.
          Settled-then 0 8 (skip_text input (suc (length input)) pos) _
            (skip_text-Settled input (suc (length input)) pos e lo (omega (arith, hi))
              (omega (arith, e)))
            λ p from room.
              Settled-if 8 (leb (length input) p) (err invalid_header) _ (λ g. inl refl)
                λ g.
                  fits-Settled input (p + 1) 8 e (omega (arith, from))
                    (omega (arith, e, leb→gt (length input) p g))

  header_crc-Settled :
      (input : List ℕ) (flg pos : ℕ)
      → length input ≡ n
      → 10 ≤ pos
      → pos + 8 ≤ n
      → Settled 8 n (header_crc {R = R} input flg pos)
  unfolding header_crc
  header_crc-Settled input flg pos e lo hi =
      Settled-if 8 (not (has flg 2)) (ok pos) _ (λ h. Settled-ok 8 pos lo hi)
        λ h. fits-Settled input (pos + 2) 8 e (omega (arith, lo)) (omega (arith, hi))

  optional_fields-Settled :
      (input : List ℕ) (flg : ℕ)
      → length input ≡ n
      → 18 ≤ n
      → Settled 8 n (optional_fields {R = R} input flg)
  unfolding optional_fields
  optional_fields-Settled input flg e h =
      Settled-then 8 8 (extra_field input flg 10) _
        (extra_field-Settled input flg 10 e (omega arith) (omega (arith, h)))
        λ p1 lo1 hi1.
          Settled-then 8 8 (zero_terminated input 8 flg p1) _
            (zero_terminated-Settled input 8 flg p1 e lo1 hi1)
            λ p2 lo2 hi2.
              Settled-then 8 8 (zero_terminated input 16 flg p2) _
                (zero_terminated-Settled input 16 flg p2 e lo2 hi2)
                λ p3 lo3 hi3.
                  Settled-then 8 8 (header_crc input flg p3) _
                    (header_crc-Settled input flg p3 e lo3 hi3)
                    λ p4 lo4 hi4.
                      Settled-if 8 (ltb (length input - 8) p4) (err invalid_header) (ok p4)
                        (λ g. inl refl) (λ g. Settled-ok 8 p4 lo4 hi4)

-- On every input the header of a gzip stream is refused as invalid, or the DEFLATE data starts at
-- a place from 10 on that leaves room for the footer: no index is out of bounds, no difference
-- falls below 0, and both loops over a text end.
pub gzip_header-Settled {ℓ} :
    (R : Type ℓ) (input : List ℕ) → Settled 8 (length input) (gzip_header {R = R} input)
unfolding gzip_header
gzip_header-Settled R input =
    let n = length input in
    Settled-if n 8 (ltb n 18) (err invalid_header) _ (λ h. inl refl)
      λ h.
        let room : 18 ≤ n = ltb→ge n 18 h in
        Settled-read n 8 0 input _ refl (omega (arith, room)) λ id1.
          Settled-read n 8 1 input _ refl (omega (arith, room)) λ id2.
            Settled-if n 8 (not (id1 == 0x1f) || not (id2 == 0x8b)) (err invalid_header) _
              (λ g. inl refl)
              λ g. Settled-read n 8 2 input _ refl (omega (arith, room)) λ cm.
                Settled-if n 8 (not (cm == 8)) (err invalid_header) _ (λ g. inl refl)
                  λ g. Settled-read n 8 3 input _ refl (omega (arith, room)) λ flg.
                    Settled-if n 8 (has flg 0xe0) (err invalid_header) _ (λ g. inl refl)
                      λ g. optional_fields-Settled n input flg refl room
