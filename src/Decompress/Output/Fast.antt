-- ===== src/Decompress/Output/Fast.antt =====
-- `fastloop_match_copy` of src/decompress/mod.rs.
use zenflate.Prelude.{
  ℕ, zero, suc, ◌+◌, ◌-◌, ◌%◌, ◌≤◌, ◌<◌, List, [], ◌∷◌, length, get_or, take, drop, replicate, leb,
  ◌==◌, ==_iff, arith, ◌≡◌, refl, sym, ap, ◌∙◌, inl, inr, Bool-cases, leb→le, leb→gt,
}
use mathlib.Core.Path.{subst}
use zenflate.Prelude.Buffer.{write}
use zenflate.Outcome.{ok, read}
use zenflate.Decompress.Output.{copy_chunks, splat_chunks, fastloop_match_copy}
use zenflate.Decompress.Output.Copy.{
  Copied, nothing-Copied, fewer-Copied, source-Copied, write-Copied, part-Copied, write_at-ok,
  copy_within-ok,
}

copy_chunks-Copied {ℓ} :
    (E : Type ℓ) (fuel : ℕ) (output res : List ℕ) (p o limit len w step i : ℕ)
    → 0 < step
    → step ≤ w
    → step ≤ o
    → o ≤ p
    → p + len + w ≤ limit
    → limit ≤ length output
    → i ≤ len
    → len < i + fuel
    → Copied output p o limit i res
    → (res' : List ℕ) × (copy_chunks {E = E} fuel res p (p - o) len w step i ≡ ok res')
      × Copied output p o limit len res'
unfolding copy_chunks
copy_chunks-Copied E zero output res p o limit len w step i pos sw so op low fits le enough v =
    absurd (omega (arith, le, enough))
copy_chunks-Copied E (suc fuel) output res p o limit len w step i pos sw so op low fits le enough
      v =
    let src = p - o + i in
    let next = write res (p + i) (take w (drop src res)) in
    let copied =
      copy_within-ok E res src w (p + i) (omega (arith, v.size, low, fits, le, op, so, pos))
        (omega (arith, v.size, low, fits, le)) in
    let more =
      part-Copied output res p o limit i step w src sw (omega (arith, low, fits, le, op, so, pos))
        (omega (arith, low, le)) (omega (arith, low, fits, le))
        (λ j h.
          let e : src + j ≡ p - o + (i + j) = omega arith in
          ap (λ (t : ℕ). get_or res t 0) e
          ∙ source-Copied output res p o limit i (i + j) (omega (arith, pos, so)) op
              (omega (arith, h, so)) v)
        v in
    elim (Bool-cases (leb len (i + step))) [
      | inl a ↦ (
        next,
        rw (copied, a) refl,
        fewer-Copied output next p o limit (i + step) len (leb→le len (i + step) a) more,
      )
      | inr a ↦
          let (res', eq, done) =
            copy_chunks-Copied E fuel output next p o limit len w step (i + step) pos sw so op low
              fits (omega (arith, leb→gt len (i + step) a)) (omega (arith, enough, pos)) more in
          (res', rw (copied, a) eq, done)
    ]

pub get_or-replicate : (n i v : ℕ) → i < n → get_or (replicate n v) i 0 ≡ v
get_or-replicate zero i v h = absurd (omega (arith, h))
get_or-replicate (suc n) zero v h = refl
get_or-replicate (suc n) (suc i) v h = get_or-replicate n i v (omega (arith, h))

splat_chunks-Copied {ℓ} :
    (E : Type ℓ) (fuel : ℕ) (output res : List ℕ) (p limit len i : ℕ)
    → p + len + 16 ≤ limit
    → limit ≤ length output
    → i ≤ len
    → len < i + fuel
    → Copied output p 1 limit i res
    → (res' : List ℕ) × (splat_chunks {E = E} fuel res p (get_or output (p - 1) 0) len i ≡ ok res')
      × Copied output p 1 limit len res'
unfolding splat_chunks
splat_chunks-Copied E zero output res p limit len i low fits le enough v =
    absurd (omega (arith, le, enough))
splat_chunks-Copied E (suc fuel) output res p limit len i low fits le enough v =
    let byte = get_or output (p - 1) 0 in
    let bytes = replicate 16 byte in
    let next = write res (p + i) bytes in
    let put = write_at-ok E res (p + i) bytes (omega (arith, v.size, low, fits, le)) in
    let more =
      write-Copied output res bytes p 1 limit i 16 (omega arith) (omega (arith, low, le))
        (omega (arith, low, fits, le))
        (λ j h.
          let z : p - 1 ≡ p - 1 + (i + j) % 1 = omega arith in
          get_or-replicate 16 j byte h ∙ ap (λ (t : ℕ). get_or output t 0) z)
        v in
    elim (Bool-cases (leb len (i + 16))) [
      | inl a ↦ (
        next,
        rw (put, a) refl,
        fewer-Copied output next p 1 limit (i + 16) len (leb→le len (i + 16) a) more,
      )
      | inr a ↦
          let (res', eq, done) =
            splat_chunks-Copied E fuel output next p limit len (i + 16) low fits
              (omega (arith, leb→gt len (i + 16) a)) (omega (arith, enough)) more in
          (res', rw (put, a) eq, done)
    ]

pub read-ok {ℓ} :
    (E : Type ℓ) (xs : List ℕ) (i : ℕ) → i < length xs → read {E = E} xs i ≡ ok (get_or xs i 0)
unfolding read
read-ok E [] i h = absurd (omega (arith, h))
read-ok E (x ∷ xs) zero h = refl
read-ok E (x ∷ xs) (suc i) h = read-ok E xs i (omega (arith, h))

one_byte-Copied {ℓ} :
    (E : Type ℓ) (output : List ℕ) (out_pos len : ℕ)
    → 1 ≤ out_pos
    → out_pos + len + 32 ≤ length output
    → (res : List ℕ) × (fastloop_match_copy {E = E} output out_pos (out_pos - 1) len 1 ≡ ok res)
      × Copied output out_pos 1 (out_pos + len + 32) len res
unfolding fastloop_match_copy
one_byte-Copied E output out_pos len le room =
    let limit = out_pos + len + 32 in
    let (res, eq, done) =
      splat_chunks-Copied E (len + 1) output output out_pos limit len 0 (omega arith) room
        (omega arith) (omega arith) (nothing-Copied output out_pos 1 limit) in
    (res, rw (read-ok E output (out_pos - 1) (omega (arith, le, room))) eq, done)

-- With 32 bytes of room behind the match, the copy of the fast loop succeeds for every distance that
-- stays in the output: the bytes of the match repeat those before it, nothing before it changes, and
-- nothing from 32 bytes behind it on.
pub fastloop_match_copy-Copied {ℓ} :
    (E : Type ℓ) (output : List ℕ) (out_pos len offset : ℕ)
    → 0 < offset
    → offset ≤ out_pos
    → out_pos + len + 32 ≤ length output
    → (res : List ℕ) × (fastloop_match_copy {E = E} output out_pos (out_pos - offset) len offset
        ≡ ok res)
      × Copied output out_pos offset (out_pos + len + 32) len res
unfolding fastloop_match_copy
fastloop_match_copy-Copied E output out_pos len offset pos le room =
    let limit = out_pos + len + 32 in
    let v = nothing-Copied output out_pos offset limit in
    elim (Bool-cases (leb 32 offset)) [
      | inl a ↦
          let (res, eq, done) =
            copy_chunks-Copied E (len + 1) output output out_pos offset limit len 32 32 0
              (omega arith) (omega arith) (leb→le 32 offset a) le (omega arith) room (omega arith)
              (omega arith) v in
          (res, rw a eq, done)
      | inr a ↦ elim (Bool-cases (leb 16 offset)) [
        | inl b ↦
            let (res, eq, done) =
              copy_chunks-Copied E (len + 1) output output out_pos offset limit len 16 16 0
                (omega arith) (omega arith) (leb→le 16 offset b) le (omega arith) room (omega arith)
                (omega arith) v in
            (res, rw (a, b) eq, done)
        | inr b ↦ elim (Bool-cases (offset == 1)) [
          | inl c ↦
              let one : offset ≡ 1 = (==_iff offset 1).0 c in
              subst
                (λ (o : ℕ).
                  (res : List ℕ) × (fastloop_match_copy {E = E} output out_pos (out_pos - o) len o
                    ≡ ok res)
                  × Copied output out_pos o limit len res)
                (sym one) (one_byte-Copied E output out_pos len (omega (arith, le, one)) room)
          | inr c ↦
              let (res, eq, done) =
                copy_chunks-Copied E (len + 1) output output out_pos offset limit len 16 offset 0
                  pos (omega (arith, leb→gt 16 offset b)) (omega arith) le (omega arith) room
                  (omega arith) (omega arith) v in
              (res, rw (a, b, c) eq, done)
        ]
      ]
    ]
