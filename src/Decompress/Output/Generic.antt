-- ===== src/Decompress/Output/Generic.antt =====
-- The match copy of the generic loop of src/decompress/mod.rs.
use zenflate.Prelude.{
  ℕ, zero, suc, ◌+◌, ◌-◌, ◌*◌, ◌%◌, ◌≤◌, ◌<◌, min, List, [], ◌∷◌, length, get_or, take, drop,
  replicate, leb, ltb, ◌==◌, ==_iff, arith, ◌≡◌, refl, sym, ap, ◌∙◌, inl, inr, Bool-cases, leb→le,
  leb→gt, gt→leb, ltb→lt, ltb→ge, length-replicate,
}
use mathlib.Core.Path.{subst}
use native.Mathlib.Nat.{mod-eq_of_lt, add-mul-mod_self_right}
use zenflate.Prelude.Buffer.{write}
use zenflate.Outcome.{ok}
use zenflate.Decompress.Output.{copy_within, copy_bytes, copy_periods, generic_match_copy}
use zenflate.Decompress.Output.Copy.{
  Copied, nothing-Copied, fewer-Copied, source-Copied, write-Copied, part-Copied, write_at-ok,
  copy_within-ok,
}
use zenflate.Decompress.Output.Fast.{get_or-replicate, read-ok}

copy_bytes-Copied {ℓ} :
    (E : Type ℓ) (n : ℕ) (output res : List ℕ) (p o limit i : ℕ)
    → 0 < o
    → o ≤ p
    → p + i + n ≤ limit
    → limit ≤ length output
    → Copied output p o limit i res
    → (res' : List ℕ) × (copy_bytes {E = E} n res (p + i) (p - o + i) ≡ ok res')
      × Copied output p o limit (i + n) res'
unfolding copy_bytes
copy_bytes-Copied E zero output res p o limit i pos op low fits v =
    (res, refl, fewer-Copied output res p o limit i (i + 0) (omega arith) v)
copy_bytes-Copied E (suc n) output res p o limit i pos op low fits v =
    let src = p - o + i in
    let byte = get_or res src 0 in
    let next = write res (p + i) (byte ∷ []) in
    let fetched = read-ok E res src (omega (arith, v.size, op, low, fits)) in
    let put = write_at-ok E res (p + i) (byte ∷ []) (omega (arith, v.size, low, fits)) in
    let more =
      write-Copied output res (byte ∷ []) p o limit i 1 (omega arith) (omega (arith, low))
        (omega (arith, low, fits))
        (λ j h.
          let z : j ≡ 0 = omega (arith, h) in
          let e : i ≡ i + j = omega (arith, z) in
          ap (λ (t : ℕ). get_or (byte ∷ []) t 0) z
          ∙ source-Copied output res p o limit i i pos op (omega (arith, pos)) v
          ∙ ap (λ (t : ℕ). get_or output (p - o + t % o) 0) e)
        v in
    let (res', eq, done) =
      copy_bytes-Copied E n output next p o limit (i + 1) pos op (omega (arith, low)) fits more in
    let a : p + i + 1 ≡ p + (i + 1) = omega arith in
    let b : p - o + i + 1 ≡ p - o + (i + 1) = omega arith in
    (
      res',
      rw (fetched, put)
          (ap (λ (t : ℕ). copy_bytes n next t (p - o + i + 1)) a
            ∙ ap (λ (t : ℕ). copy_bytes n next (p + (i + 1)) t) b
            ∙ eq),
      fewer-Copied output res' p o limit (i + 1 + n) (i + suc n) (omega arith) done,
    )

copy_periods-Copied {ℓ} :
    (E : Type ℓ) (fuel : ℕ) (output res : List ℕ) (p o limit len copied : ℕ)
    → 0 < copied
    → 0 < fuel
    → p + len ≤ limit
    → limit ≤ length output
    → len < copied + fuel
    → (copied < len → (j : ℕ) → (copied + j) % o ≡ j % o)
    → Copied output p o limit copied res
    → (res' : List ℕ) × (copy_periods {E = E} fuel res p len copied ≡ ok res')
      × Copied output p o limit len res'
unfolding copy_periods
copy_periods-Copied E zero output res p o limit len copied pos some_fuel low fits enough whole v =
    absurd (omega (arith, some_fuel))
copy_periods-Copied E (suc fuel) output res p o limit len copied pos some_fuel low fits enough whole
      v =
    elim (Bool-cases (ltb copied len)) [
      | inr a ↦
          (res, rw a refl, fewer-Copied output res p o limit copied len (ltb→ge copied len a) v)
      | inl a ↦
          let lt = ltb→lt copied len a in
          let chunk = min copied (len - copied) in
          let next = write res (p + copied) (take chunk (drop p res)) in
          let put =
            copy_within-ok E res p chunk (p + copied) (omega (arith, v.size, low, fits, lt))
              (omega (arith, v.size, low, fits, lt)) in
          let more =
            part-Copied output res p o limit copied chunk chunk p (omega arith)
              (omega (arith, low, fits, lt)) (omega (arith, low, lt)) (omega (arith, low, fits, lt))
              (λ j h.
                v.repeated j (omega (arith, h))
                ∙ ap (λ (t : ℕ). get_or output (p - o + t) 0) (sym (whole lt j)))
              v in
          let (res', eq, done) =
            copy_periods-Copied E fuel output next p o limit len (copied + chunk)
              (omega (arith, pos)) (omega (arith, enough, lt)) low fits
              (omega (arith, enough, pos, lt))
              (λ h j.
                let twice : copied + chunk + j ≡ copied + (copied + j) = omega (arith, h) in
                ap (λ (t : ℕ). t % o) twice ∙ whole lt (copied + j) ∙ whole lt j)
              more in
          (res', rw (a, put) eq, done)
    ]

periods_whole : (o j : ℕ) → (o + j) % o ≡ j % o
periods_whole o j =
    let e : o + j ≡ j + 1 * o = omega arith in
    ap (λ (t : ℕ). t % o) e ∙ add-mul-mod_self_right j 1 o

-- The first period, or the whole match when its distance is not shorter than it.
first-Copied {ℓ} :
    (E : Type ℓ) (output : List ℕ) (p o limit n : ℕ)
    → n ≤ o
    → o ≤ p
    → p + n ≤ limit
    → limit ≤ length output
    → (copy_within {E = E} output (p - o) n p
        ≡ ok (write output (p + 0) (take n (drop (p - o) output))))
      × Copied output p o limit n (write output (p + 0) (take n (drop (p - o) output)))
first-Copied E output p o limit n short op low fits =
    let here : p ≡ p + 0 = omega arith in
    let v = nothing-Copied output p o limit in
    let more =
      part-Copied output output p o limit 0 n n (p - o) (omega arith) (omega (arith, low, fits, op))
        (omega (arith, low)) (omega (arith, low, fits))
        (λ j h.
          let z : j ≡ 0 + j = omega arith in
          ap (λ (t : ℕ). get_or output (p - o + t) 0)
            (sym (mod-eq_of_lt (omega (arith, h, short))) ∙ ap (λ (t : ℕ). t % o) z))
        v in
    (
      copy_within-ok E output (p - o) n p (omega (arith, low, fits, op)) (omega (arith, low, fits))
          ∙ ap (λ (t : ℕ). ok (write output t (take n (drop (p - o) output)))) here,
      fewer-Copied output _ p o limit (0 + n) n (omega arith) more,
    )

splat-Copied {ℓ} :
    (E : Type ℓ) (output : List ℕ) (p len : ℕ)
    → 1 ≤ p
    → 1 < len
    → p + len ≤ length output
    → (res : List ℕ) × (generic_match_copy {E = E} output p len 1 ≡ ok res)
      × Copied output p 1 (p + len) len res
unfolding generic_match_copy
splat-Copied E output p len le long room =
    let byte = get_or output (p - 1) 0 in
    let bytes = replicate len byte in
    let size : length bytes ≡ len = length-replicate len byte in
    let here : p ≡ p + 0 = omega arith in
    let more =
      write-Copied output output bytes p 1 (p + len) 0 len (omega (arith, size))
        (omega (arith, size)) (omega (arith, size, room))
        (λ j h.
          let z : p - 1 ≡ p - 1 + (0 + j) % 1 = omega arith in
          get_or-replicate len j byte h ∙ ap (λ (t : ℕ). get_or output t 0) z)
        (nothing-Copied output p 1 (p + len)) in
    (
      write output (p + 0) bytes,
      rw
          (
            gt→leb len 1 long,
            read-ok E output (p - 1) (omega (arith, le, room)),
            write_at-ok E output p bytes (omega (arith, size, room)),
          )
          (ap (λ (t : ℕ). ok (write output t bytes)) here),
      fewer-Copied output _ p 1 (p + len) (0 + len) len (omega arith) more,
    )

-- The copy of the generic loop succeeds for every match that stays in the output: the bytes of the
-- match repeat those before it, and nothing else changes.
pub generic_match_copy-Copied {ℓ} :
    (E : Type ℓ) (output : List ℕ) (out_pos len offset : ℕ)
    → 0 < offset
    → offset ≤ out_pos
    → out_pos + len ≤ length output
    → (res : List ℕ) × (generic_match_copy {E = E} output out_pos len offset ≡ ok res)
      × Copied output out_pos offset (out_pos + len) len res
unfolding generic_match_copy
generic_match_copy-Copied E output out_pos len offset pos le room =
    let limit = out_pos + len in
    let v = nothing-Copied output out_pos offset limit in
    elim (Bool-cases (leb len offset)) [
      | inl a ↦
          let (eq, done) =
            first-Copied E output out_pos offset limit len (leb→le len offset a) le (omega arith)
              room in
          (_, rw a eq, done)
      | inr a ↦ elim (Bool-cases (offset == 1)) [
        | inl b ↦
            let one : offset ≡ 1 = (==_iff offset 1).0 b in
            subst
              (λ (o : ℕ).
                (res : List ℕ) × (generic_match_copy {E = E} output out_pos len o ≡ ok res)
                × Copied output out_pos o limit len res)
              (sym one)
              (splat-Copied E output out_pos len (omega (arith, le, one))
                (omega (arith, leb→gt len offset a, one)) room)
        | inr b ↦ elim (Bool-cases (leb len 32)) [
          | inl c ↦
              let (res, eq, done) =
                copy_bytes-Copied E len output output out_pos offset limit 0 pos le (omega arith)
                  room v in
              let here : out_pos ≡ out_pos + 0 = omega arith in
              let there : out_pos - offset ≡ out_pos - offset + 0 = omega arith in
              (
                res,
                rw (a, b, c)
                    (ap (λ (t : ℕ). copy_bytes len output t (out_pos - offset)) here
                      ∙ ap (λ (t : ℕ). copy_bytes len output (out_pos + 0) t) there
                      ∙ eq),
                fewer-Copied output res out_pos offset limit (0 + len) len (omega arith) done,
              )
          | inr c ↦
              let (first, done_first) =
                first-Copied E output out_pos offset limit offset (omega arith) le
                  (omega (arith, leb→gt len offset a)) room in
              let (res, eq, done) =
                copy_periods-Copied E (len + 1) output
                  (write output (out_pos + 0) (take offset (drop (out_pos - offset) output)))
                  out_pos offset limit len offset pos (omega arith) (omega arith) room (omega arith)
                  (λ h j. periods_whole offset j) done_first in
              (res, rw (a, b, c, first) eq, done)
        ]
      ]
    ]
