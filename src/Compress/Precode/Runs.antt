-- ===== src/Compress/Precode/Runs.antt =====
-- The runs of the precode in src/compress/block.rs: the loop of one code, and runs of zeros.
use zenflate.Prelude.{
  ℕ, zero, suc, ◌+◌, ◌-◌, ◌^◌, ◌≤◌, ◌<◌, min, true, false, ◌&&◌, Bool, List, [], ◌∷◌, ◌++◌, length,
  drop, replicate, leb, ◌==◌, if◌then◌else◌, arith, ◌≡◌, refl, sym, ap, ◌∙◌, inl, inr, Bool-cases,
  leb→le, leb→gt, ==_iff, append_empty,
}
use mathlib.Core.Path.{subst}
use mathlib.Core.Bool.{true≢false}
use zenflate.Outcome.{Outcome, ok}
use zenflate.Compress.Precode.{
  PrecodeFlags, Written, emit, run_item, run_length, emit_runs, emit_lens, zero_runs,
}
use zenflate.Compress.Precode.Expand.{Stands}
use zenflate.Compress.Precode.Items.{
  length-more, append-add, last-run, literal-Stands, emit_lens-Stands, run_18-Stands, run_17-Stands,
  run_16-Stands,
}

pub and_right : (a b : Bool) → (a && b) ≡ true → b ≡ true
and_right true b h = h
and_right false b h = absurd (true≢false (sym h))

pub run_length-le : (len : ℕ) (lens : List ℕ) → run_length len lens ≤ length lens
unfolding run_length
run_length-le len [] = omega arith
run_length-le len (l ∷ lens) = ground (arith, run_length-le len lens)

pub run_length-split :
    (len : ℕ) (lens : List ℕ)
    → replicate (run_length len lens) len ++ drop (run_length len lens) lens ≡ lens
unfolding run_length
run_length-split len [] = refl
run_length-split len (l ∷ lens) = elim (Bool-cases (l == len)) [
  | inl t ↦
      let e : l ≡ len = (==_iff l len).0 t in
      rw t (ap (λ t. len ∷ t) (run_length-split len lens) ∙ ap (λ (i : ℕ). i ∷ lens) (sym e))
  | inr t ↦ rw t refl
]

-- A length and two runs of it.
pub fused :
    (done : List ℕ) (len x y : ℕ) (w : Written)
    → len < 16
    → x ≤ 3
    → y ≤ 3
    → length done + (1 + (3 + x) + (3 + y)) < 2 ^ 31
    → Stands done w
    → Stands
        (done ++ replicate (1 + (3 + x) + (3 + y)) len)
        (emit 16 (run_item 16 y) (emit 16 (run_item 16 x) (emit len len w)))
fused done len x y w h le le2 small v =
    let one = done ++ replicate 1 len in
    let two = one ++ replicate (3 + x) len in
    let first = literal-Stands done len w h (omega (arith, small)) v in
    let second =
      run_16-Stands one (emit len len w) (omega (arith, small, length-more done 1 len)) first len x
        le (last-run done 1 len (omega arith)) in
    let third =
      run_16-Stands two (emit 16 (run_item 16 x) (emit len len w))
        (omega (arith, small, le, length-more done 1 len, length-more one (3 + x) len)) second len y
        le2 (last-run one (3 + x) len (omega arith)) in
    subst
      (λ (i : List ℕ).
        Stands i (emit 16 (run_item 16 y) (emit 16 (run_item 16 x) (emit len len w))))
      (ap (λ t. t ++ replicate (3 + y) len) (append-add done 1 (3 + x) len)
        ∙ append-add done (1 + (3 + x)) (3 + y) len)
      third

module _ {ℓ} (E : Type ℓ) where
  pub if_true : (b : Bool) (x y : Outcome E Written) → b ≡ true → (if b then x else y) ≡ x
  if_true true x y h = refl
  if_true false x y h = absurd (true≢false (sym h))

  pub if_false : (b : Bool) (x y : Outcome E Written) → b ≡ false → (if b then x else y) ≡ y
  if_false true x y h = absurd (true≢false h)
  if_false false x y h = refl

  -- The loop of one code took `k` of the run and left fewer than it can take.
  unfoldable pub Emitted : ℕ → ℕ → List ℕ → ℕ → Outcome E (ℕ × Written) → Type ℓ
  Emitted least run done val found =
      (left : ℕ) × (w : Written) × (k : ℕ) × (found ≡ ok (left, w))
      × (k + left ≡ run)
      × (left < least)
      × Stands (done ++ replicate k val) w

  module _ (sym_16 least most val : ℕ) (Ready : List ℕ → Type 0) (pos : 0 < least)
      (one : (done : List ℕ) (w : Written) (extra : ℕ)
        → length done < 2 ^ 31
        → Stands done w
        → extra ≤ most
        → Ready done
        → Stands (done ++ replicate (least + extra) val) (emit sym_16 (run_item sym_16 extra) w))
      (again : (done : List ℕ) (k : ℕ) → 0 < k → Ready (done ++ replicate k val)) where
    pub emit_runs-Emitted :
        (fuel run : ℕ) (done : List ℕ) (w : Written)
        → run < fuel
        → length done + run < 2 ^ 31
        → Ready done
        → Stands done w
        → Emitted least run done val (emit_runs {E = E} sym_16 least most fuel run w)
    unfolding Emitted emit_runs
    emit_runs-Emitted zero run done w h small ready v = absurd (omega (arith, h))
    emit_runs-Emitted (suc fuel) run done w h small ready v = elim (Bool-cases (leb least run)) [
      | inr t ↦ (
        run,
        w,
        0,
        rw t refl,
        omega arith,
        leb→gt least run t,
        subst (λ (i : List ℕ). Stands i w) (sym (append_empty done)) v,
      )
      | inl t ↦
          let le = leb→le least run t in
          let extra = min (run - least) most in
          let taken = least + extra in
          let fits : taken ≤ run = omega (arith, le) in
          let next = emit sym_16 (run_item sym_16 extra) w in
          let stands = one done w extra (omega (arith, small)) v (omega arith) ready in
          let (left, out, k, eq, sum_eq, short, end) =
            emit_runs-Emitted fuel (run - taken) (done ++ replicate taken val) next
              (omega (arith, h, fits, pos)) (omega (arith, small, fits, length-more done taken val))
              (again done taken (omega (arith, pos))) stands in
          (
            left,
            out,
            taken + k,
            rw t eq,
            omega (arith, sum_eq, fits),
            short,
            subst (λ (i : List ℕ). Stands i out) (append-add done taken k val) end,
          )
    ]

  -- A run is written.
  unfoldable pub Run : List ℕ → ℕ → ℕ → Outcome E Written → Type ℓ
  Run done run len found = (w : Written) × (found ≡ ok w) × Stands (done ++ replicate run len) w

  -- What is left of a run is written as lengths.
  pub rest-Stands :
      (done : List ℕ) (k left run len : ℕ) (w : Written)
      → k + left ≡ run
      → len < 16
      → length done + run < 2 ^ 31
      → Stands (done ++ replicate k len) w
      → Stands (done ++ replicate run len) (emit_lens len left w)
  rest-Stands done k left run len w e h small v =
      subst (λ (i : List ℕ). Stands i (emit_lens len left w))
        (append-add done k left len ∙ ap (λ (t : ℕ). done ++ replicate t len) e)
        (emit_lens-Stands left len (done ++ replicate k len) w h
          (omega (arith, small, e, length-more done k len)) v)

  -- A code for runs of zeros, where the flags allow it.
  zero_code :
      (code least most : ℕ) (enabled : Bool) (run : ℕ) (done : List ℕ) (w : Written)
      → 0 < least
      → ((done : List ℕ) (w : Written) (extra : ℕ)
          → length done < 2 ^ 31
          → Stands done w
          → extra ≤ most
          → Unit {0}
          → Stands (done ++ replicate (least + extra) 0) (emit code (run_item code extra) w))
      → length done + run < 2 ^ 31
      → Stands done w
      → (left : ℕ) × (out : Written) × (k : ℕ) × ((if enabled
            then emit_runs {E = E} code least most (run + 1) run w
            else ok (run, w))
          ≡ ok (left, out))
        × (k + left ≡ run)
        × Stands (done ++ replicate k 0) out
  unfolding Emitted
  zero_code code least most false run done w pos one small v =
      (run, w, 0, refl, omega arith, subst (λ (i : List ℕ). Stands i w) (sym (append_empty done)) v)
  zero_code code least most true run done w pos one small v =
      let (left, out, k, eq, sum_eq, short, end) =
        emit_runs-Emitted code least most 0 (λ done. Unit) pos one (λ done k h. tt) (run + 1) run
          done w (omega arith) small tt v in
      (left, out, k, eq, sum_eq, end)

  pub zero_runs-Run :
      (flags : PrecodeFlags) (run : ℕ) (done : List ℕ) (w : Written)
      → length done + run < 2 ^ 31
      → Stands done w
      → Run done run 0 (zero_runs flags run w)
  unfolding Run zero_runs
  zero_runs-Run flags run done w small v =
      let (left, one, k, eq, sum_eq, mid) =
        zero_code 18 11 0x7f flags.use_18 run done w (omega arith)
          (λ done w extra h v le ready. run_18-Stands done w h v extra le) small v in
      let (rest, two, j, eq2, sum_eq2, end) =
        zero_code 17 3 0x7 (flags.use_17 && leb 3 left) left (done ++ replicate k 0) one
          (omega arith) (λ done w extra h v le ready. run_17-Stands done w h v extra le)
          (omega (arith, small, sum_eq, length-more done k 0)) mid in
      (
        emit_lens 0 rest two,
        rw (eq, eq2) refl,
        rest-Stands done (k + j) rest run 0 two (omega (arith, sum_eq, sum_eq2)) (omega arith) small
            (subst (λ (i : List ℕ). Stands i two) (append-add done k j 0) end),
      )
