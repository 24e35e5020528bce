-- ===== src/Compress/Precode/RoundTrip.antt =====
-- `compute_precode_items_flagged` of src/compress/block.rs: run by run, the items stand for the
-- lengths.
use zenflate.Prelude.{
  ℕ, zero, suc, ◌+◌, ◌-◌, ◌^◌, ◌≤◌, ◌<◌, ◌&&◌, List, [], ◌∷◌, ◌++◌, length, get_or, drop, replicate,
  All, All-drop, leb, ◌==◌, arith, ◌≡◌, refl, sym, ap, ◌∙◌, inl, inr, Bool-cases, leb→le, ==_iff,
  append_assoc, append_empty, length-drop,
}
use mathlib.Core.Path.{subst}
use zenflate.Outcome.{ok}
use zenflate.Compress.Precode.{
  PrecodeFlags, Written, emit, run_item, run_length, emit_lens, nonzero_runs, emit_run, items_loop,
  compute_precode_items_flagged,
}
use zenflate.Compress.Precode.Expand.{last, Stands}
use zenflate.Compress.Precode.Items.{
  length-more, append-add, last-run, literal-Stands, emit_lens-Stands, run_16-Stands,
}
use zenflate.Compress.Precode.Runs.{
  and_right, run_length-le, run_length-split, fused, Emitted, Run, if_true, if_false, rest-Stands,
  emit_runs-Emitted, zero_runs-Run,
}

module _ {ℓ} (E : Type ℓ) where
  nonzero_runs-Run :
      (flags : PrecodeFlags) (len run : ℕ) (done : List ℕ) (w : Written)
      → len < 16
      → length done + run < 2 ^ 31
      → Stands done w
      → Run E done run len (nonzero_runs flags len run w)
  unfolding Run nonzero_runs Emitted run_item
  nonzero_runs-Run flags len run done w h small v = elim (Bool-cases (flags.fuse_7 && run == 7)) [
    | inl t ↦
        let e : run ≡ 7 = (==_iff run 7).0 (and_right flags.fuse_7 (run == 7) t) in
        (
          emit 16 16 (emit 16 16 (emit len len w)),
          rw t refl,
          rw e (fused done len 0 0 w h (omega arith) (omega arith) (omega (arith, small, e)) v),
        )
    | inr t ↦ elim (Bool-cases (flags.fuse_8 && run == 8)) [
      | inl u ↦
          let e : run ≡ 8 = (==_iff run 8).0 (and_right flags.fuse_8 (run == 8) u) in
          (
            emit 16 16 (emit 16 (run_item 16 1) (emit len len w)),
            rw (t, u) refl,
            rw e (fused done len 1 0 w h (omega arith) (omega arith) (omega (arith, small, e)) v),
          )
      | inr u ↦ elim (Bool-cases (leb 4 run)) [
        | inr x ↦
            (emit_lens len run w, rw (t, u, x) refl, emit_lens-Stands run len done w h small v)
        | inl x ↦
            let le = leb→le 4 run x in
            let (left, out, k, eq, sum_eq, short, end) =
              emit_runs-Emitted E 16 3 0x3 len (λ done. last done ≡ len) (omega arith)
                (λ done w extra h v le ready. run_16-Stands done w h v len extra le ready)
                (λ done k h. last-run done k len h) run (run - 1) (done ++ replicate 1 len)
                (emit len len w) (omega (arith, le))
                (omega (arith, small, le, length-more done 1 len))
                (last-run done 1 len (omega arith))
                (literal-Stands done len w h (omega (arith, small)) v) in
            (
              emit_lens len left out,
              rw (t, u, x, eq) refl,
              rest-Stands E done (1 + k) left run len out (omega (arith, sum_eq, le)) h small
                  (subst (λ (i : List ℕ). Stands i out) (append-add done 1 k len) end),
            )
      ]
    ]
  ]

  emit_run-Run :
      (flags : PrecodeFlags) (len run : ℕ) (done : List ℕ) (w : Written)
      → len < 16
      → length done + run < 2 ^ 31
      → Stands done w
      → Run E done run len (emit_run flags len run w)
  unfolding Run emit_run
  emit_run-Run flags len run done w h small v = elim (Bool-cases (len == 0)) [
    | inl t ↦
        let z : len ≡ 0 = (==_iff len 0).0 t in
        let (out, eq, end) = zero_runs-Run E flags run done w small v in (out, rw t eq, rw z end)
    | inr t ↦ elim (Bool-cases flags.use_16) [
      | inl u ↦
          let (out, eq, end) = nonzero_runs-Run flags len run done w h small v in
          (
            out,
            rw t (
                if_true E flags.use_16 (nonzero_runs flags len run w) (ok (emit_lens len run w)) u
                ∙ eq),
            end,
          )
      | inr u ↦ (
        emit_lens len run w,
        rw t (if_false E flags.use_16 (nonzero_runs flags len run w) (ok (emit_lens len run w)) u),
        emit_lens-Stands run len done w h small v,
      )
    ]
  ]

  items_loop-Stands :
      (flags : PrecodeFlags) (fuel : ℕ) (lens done : List ℕ) (w : Written)
      → All (λ (l : ℕ). l < 16) lens
      → length lens ≤ fuel
      → length done + length lens < 2 ^ 31
      → Stands done w
      → (out : Written) × (items_loop {E = E} flags fuel lens w ≡ ok out)
        × Stands (done ++ lens) out
  unfolding items_loop Run
  items_loop-Stands flags fuel [] done w h enough small v =
      (w, refl, subst (λ (i : List ℕ). Stands i w) (sym (append_empty done)) v)
  items_loop-Stands flags zero (len ∷ lens) done w h enough small v = absurd (omega (arith, enough))
  items_loop-Stands flags (suc fuel) (len ∷ lens) done w (p, h) enough small v =
      let m = run_length len lens in
      let fits = run_length-le len lens in
      let rest = drop m lens in
      let size = length-drop m lens in
      let (mid, eq, stands) =
        emit_run-Run flags len (m + 1) done w p (omega (arith, small, fits)) v in
      let (out, eq2, end) =
        items_loop-Stands flags fuel rest (done ++ replicate (m + 1) len) mid
          (All-drop (λ (l : ℕ). l < 16) m lens h) (omega (arith, enough, size))
          (omega (arith, small, size, fits, length-more done (m + 1) len)) stands in
      let one : m + 1 ≡ suc m = omega arith in
      let whole : (done ++ replicate (m + 1) len) ++ rest ≡ done ++ (len ∷ lens) =
        append_assoc done (replicate (m + 1) len) rest
        ∙ ap (λ (t : ℕ). done ++ (replicate t len ++ rest)) one
        ∙ ap (λ t. done ++ (len ∷ t)) (run_length-split len lens) in
      (out, rw eq eq2, subst (λ (i : List ℕ). Stands i out) whole end)

-- Whatever the flags are, the items stand for the codeword lengths: expanding them, the way a decoder
-- does, gives the lengths back. Each item fits the fields of the format, the frequencies count the
-- symbols of the items, and there are no more items than lengths. The lengths are below 16.
pub compute_precode_items_flagged-Stands {ℓ} :
    (E : Type ℓ) (lens : List ℕ) (flags : PrecodeFlags)
    → All (λ (l : ℕ). l < 16) lens
    → length lens < 2 ^ 31
    → (w : Written) × (compute_precode_items_flagged {E = E} lens flags ≡ ok w) × Stands lens w
unfolding compute_precode_items_flagged
compute_precode_items_flagged-Stands E lens flags h small =
    items_loop-Stands E flags (length lens) lens []
      record { precode_freqs = replicate 19 0; items = [] } h (omega arith) (omega (arith, small))
      record {
        lens = refl;
        fields = tt;
        size = refl;
        freqs = λ s h. zero_at 19 s;
        few = omega arith;
      }
  where
    zero_at : (m i : ℕ) → get_or {A = ℕ} (replicate m 0) i 0 ≡ 0
    zero_at zero i = refl
    zero_at (suc m) zero = refl
    zero_at (suc m) (suc i) = zero_at m i
