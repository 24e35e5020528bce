-- ===== src/Compress/Precode/Items.antt =====
-- One item of the precode in src/compress/block.rs: a length, or a run.
use zenflate.Prelude.{
  ℕ, zero, suc, ◌+◌, ◌-◌, ◌/◌, ◌%◌, ◌^◌, ◌≤◌, ◌<◌, List, ◌∷◌, ◌++◌, length, get_or, replicate,
  arith, ◌≡◌, refl, sym, ap, ◌∙◌, append_assoc, append_empty, length-append, length-replicate,
  lt→ltb,
}
use mathlib.Core.Path.{subst}
use zenflate.Prelude.Range.{get_or-append_back}
use zenflate.Compress.Precode.{Written, emit, run_item, emit_lens}
use zenflate.Compress.Precode.Expand.{last, Stands, emit-Stands, run_item-eq}

pub length-more : (done : List ℕ) (k v : ℕ) → length (done ++ replicate k v) ≡ length done + k
length-more done k v =
    omega (arith, length-append done (replicate k v), length-replicate {A = ℕ} k v)

pub replicate-add : (a b v : ℕ) → replicate (a + b) v ≡ replicate a v ++ replicate b v
replicate-add zero b v = let e : 0 + b ≡ b = omega arith in ap (λ (t : ℕ). replicate t v) e
replicate-add (suc a) b v =
    let e : suc a + b ≡ suc (a + b) = omega arith in
    ap (λ (t : ℕ). replicate t v) e ∙ ap (λ t. v ∷ t) (replicate-add a b v)

pub append-add :
    (done : List ℕ) (a b v : ℕ)
    → (done ++ replicate a v) ++ replicate b v ≡ done ++ replicate (a + b) v
append-add done a b v =
    append_assoc done (replicate a v) (replicate b v)
    ∙ ap (λ t. done ++ t) (sym (replicate-add a b v))

get_or-replicate : (k v i : ℕ) → i < k → get_or (replicate k v) i 16 ≡ v
get_or-replicate zero v i h = absurd (omega (arith, h))
get_or-replicate (suc k) v zero h = refl
get_or-replicate (suc k) v (suc i) h = get_or-replicate k v i (omega (arith, h))

pub last-run : (done : List ℕ) (k v : ℕ) → 0 < k → last (done ++ replicate k v) ≡ v
last-run done k v pos =
    let e : length (done ++ replicate k v) - 1 ≡ length done + (k - 1) =
      omega (arith, pos, length-more done k v) in
    ap (λ (t : ℕ). get_or (done ++ replicate k v) t 16) e
    ∙ get_or-append_back done (replicate k v) (k - 1) 16
    ∙ get_or-replicate k v (k - 1) (omega (arith, pos))

-- A length.
pub literal-Stands :
    (done : List ℕ) (len : ℕ) (w : Written)
    → len < 16
    → length done < 2 ^ 31
    → Stands done w
    → Stands (done ++ replicate 1 len) (emit len len w)
literal-Stands done len w h small v =
    let low : len % 32 ≡ len = omega (arith, h) in
    let high : len / 32 ≡ 0 = omega (arith, h) in
    emit-Stands done (done ++ replicate 1 len) len len w low
      (rw (low, high, lt→ltb len 16 h) (omega (arith, h), omega arith))
      (rw (low, lt→ltb len 16 h) refl) (omega (arith, length-more done 1 len)) small v

-- The lengths one by one.
pub emit_lens-Stands :
    (run len : ℕ) (done : List ℕ) (w : Written)
    → len < 16
    → length done + run < 2 ^ 31
    → Stands done w
    → Stands (done ++ replicate run len) (emit_lens len run w)
unfolding emit_lens
emit_lens-Stands zero len done w h small v =
    subst (λ (t : List ℕ). Stands t w) (sym (append_empty done)) v
emit_lens-Stands (suc run) len done w h small v =
    let e : 1 + run ≡ suc run = omega arith in
    subst (λ (t : List ℕ). Stands t (emit_lens len run (emit len len w)))
      (append-add done 1 run len ∙ ap (λ (t : ℕ). done ++ replicate t len) e)
      (emit_lens-Stands run len (done ++ replicate 1 len) (emit len len w) h
        (omega (arith, small, length-more done 1 len))
        (literal-Stands done len w h (omega (arith, small)) v))

-- A run, by its symbol.
module _ (done : List ℕ) (w : Written) (small : length done < 2 ^ 31) (v : Stands done w) where
  pub run_18-Stands :
      (extra : ℕ)
      → extra ≤ 127
      → Stands (done ++ replicate (11 + extra) 0) (emit 18 (run_item 18 extra) w)
  run_18-Stands extra h =
      let item = run_item-eq 18 extra (omega arith) (omega (arith, h)) in
      let low : run_item 18 extra % 32 ≡ 18 = omega (arith, item) in
      let high : run_item 18 extra / 32 ≡ extra = omega (arith, item) in
      emit-Stands done (done ++ replicate (11 + extra) 0) 18 (run_item 18 extra) w low
        (rw (low, high) (omega arith, omega (arith, h))) (rw (low, high) refl)
        (omega (arith, length-more done (11 + extra) 0)) small v

  pub run_17-Stands :
      (extra : ℕ)
      → extra ≤ 7
      → Stands (done ++ replicate (3 + extra) 0) (emit 17 (run_item 17 extra) w)
  run_17-Stands extra h =
      let item = run_item-eq 17 extra (omega arith) (omega (arith, h)) in
      let low : run_item 17 extra % 32 ≡ 17 = omega (arith, item) in
      let high : run_item 17 extra / 32 ≡ extra = omega (arith, item) in
      emit-Stands done (done ++ replicate (3 + extra) 0) 17 (run_item 17 extra) w low
        (rw (low, high) (omega arith, omega (arith, h))) (rw (low, high) refl)
        (omega (arith, length-more done (3 + extra) 0)) small v

  pub run_16-Stands :
      (len extra : ℕ)
      → extra ≤ 3
      → last done ≡ len
      → Stands (done ++ replicate (3 + extra) len) (emit 16 (run_item 16 extra) w)
  run_16-Stands len extra h same =
      let item = run_item-eq 16 extra (omega arith) (omega (arith, h)) in
      let low : run_item 16 extra % 32 ≡ 16 = omega (arith, item) in
      let high : run_item 16 extra / 32 ≡ extra = omega (arith, item) in
      emit-Stands done (done ++ replicate (3 + extra) len) 16 (run_item 16 extra) w low
        (rw (low, high) (omega arith, omega (arith, h)))
        (rw (low, high) (ap (λ (t : ℕ). done ++ replicate (3 + extra) t) same))
        (omega (arith, length-more done (3 + extra) len)) small v
