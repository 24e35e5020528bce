-- ===== src/Compress/BlockSplit/Progress.antt =====
-- `input_block_end` of src/compress/block_split.rs: where a block may end.
use zenflate.Prelude.{
  ℕ, zero, suc, ◌+◌, ◌-◌, ◌^◌, ◌≤◌, ◌<◌, List, [], ◌∷◌, length, take, drop, leb, ltb, ◌==◌, ◌&&◌,
  not, Bool, true, false, if◌then◌else◌, arith, ◌≡◌, refl, ◌∙◌, inl, inr, ◌⊎◌, Bool-cases, leb→le,
  leb→gt, ge→ltb, length-drop, length-take,
}
use zenflate.Prelude.Words.{sub64, add64}
use zenflate.Outcome.{ok}
use zenflate.Compress.BlockSplit.{
  BlockSplitStats, Seen, new, no_observations, ready_to_check, should_end_block, starts_run,
  run_end, observe_input, end_test, block_end_loop, block_end_within, max_end_for, input_block_end,
}

run_end-range : (b r : ℕ) (xs : List ℕ) → (r ≤ run_end b r xs) × (run_end b r xs ≤ r + length xs)
unfolding run_end
run_end-range b r [] = (omega arith, omega arith)
run_end-range b r (x ∷ xs) =
    let (lo, hi) = run_end-range b (r + 1) xs in
    elim (Bool-cases (ltb r 258 && x == b)) [
      | inl a ↦ rw a (omega (arith, lo), omega (arith, hi))
      | inr a ↦ rw a (omega arith, omega arith)
    ]

starts_run-length : (b : ℕ) (xs : List ℕ) → starts_run b xs ≡ true → 4 ≤ length xs
unfolding starts_run
starts_run-length b [] h = absurd (ground (arith, h))
starts_run-length b (x ∷ []) h = absurd (ground (arith, h))
starts_run-length b (x ∷ y ∷ []) h = absurd (ground (arith, h))
starts_run-length b (x ∷ y ∷ z ∷ []) h = absurd (ground (arith, h))
starts_run-length b (x ∷ y ∷ z ∷ w ∷ rest) h = omega arith

-- A round takes a byte, and none that is not there.
observe_input-range :
    (s : Seen) (b : ℕ) (xs : List ℕ)
    → (1 ≤ (observe_input s b xs).0) × ((observe_input s b xs).0 ≤ suc (length xs))
unfolding observe_input
observe_input-range s b xs = elim (Bool-cases (starts_run b xs)) [
  | inl a ↦
      let (lo, hi) = run_end-range b 5 (drop 4 xs) in
      let enough = starts_run-length b xs a in
      rw a (omega (arith, lo), omega (arith, hi, length-drop 4 xs, enough))
  | inr a ↦ rw a (omega arith, omega arith)
]

and_parts : (a b c : Bool) → (a && b && c) ≡ true → (b ≡ true) × (c ≡ true)
and_parts true true true h = (refl, refl)
and_parts true true false h = absurd (ground (arith, h))
and_parts true false c h = absurd (ground (arith, h))
and_parts false b c h = absurd (ground (arith, h))

should_end_block-range :
    (s : BlockSplitStats) (begin in_next end : ℕ)
    → begin ≤ in_next
    → in_next ≤ end
    → end < 2 ^ 64
    → (should_end_block s begin in_next end).0 ≡ true
    → (begin + 5000 ≤ in_next) × (in_next + 5000 ≤ end)
unfolding should_end_block ready_to_check
should_end_block-range s begin in_next end lo hi small h =
    elim (Bool-cases (ready_to_check s begin in_next end)) [
      | inl a ↦
          let (p, q) =
            and_parts (leb 512 s.num_new_observations) (leb 5000 (sub64 in_next begin))
              (leb 5000 (sub64 end in_next)) a in
          let p' = leb→le 5000 (sub64 in_next begin) p in
          let q' = leb→le 5000 (sub64 end in_next) q in
          (omega (arith, p', lo, hi, small), omega (arith, q', lo, hi, small))
      | inr a ↦ absurd (ground (arith, a, h))
    ]

tested :
    (skip : Bool) (s s' : Seen) (b : Bool)
    → (if◌then◌else◌ {A = Bool × Seen} skip (false, s) (b, s')).0 ≡ true
    → b ≡ true
tested true s s' b h = absurd (ground (arith, h))
tested false s s' b h = h

end_test-range :
    (s : Seen) (begin in_next end : ℕ)
    → begin ≤ in_next
    → in_next ≤ end
    → end < 2 ^ 64
    → (end_test s begin in_next end).0 ≡ true
    → (begin + 5000 ≤ in_next) × (in_next + 5000 ≤ end)
unfolding end_test
end_test-range s begin in_next end lo hi small h =
    should_end_block-range _ begin in_next end lo hi small (tested (not (leb 512 s.n)) s _ _ h)

-- A place where a block may end: the cap, or one with room for a block on either side.
abbrev pub IsEnd : ℕ → ℕ → ℕ → ℕ → Type 0
IsEnd begin end max_end r =
    (begin < r) × (r ≤ max_end) × ((r ≡ max_end) ⊎ (begin + 5000 ≤ r) × (r + 5000 ≤ end))

block_end_loop-IsEnd {ℓ} :
    (E : Type ℓ) (fuel : ℕ) (s : Seen) (begin end max_end i : ℕ) (rest : List ℕ)
    → length rest ≤ fuel
    → begin + i + length rest ≡ max_end
    → begin < max_end
    → max_end ≤ end
    → end < 2 ^ 64
    → (r : ℕ) × (block_end_loop {E = E} fuel s begin end max_end i rest ≡ ok r)
      × IsEnd begin end max_end r
unfolding block_end_loop
block_end_loop-IsEnd E fuel s begin end max_end i [] enough e lo hi small =
    (max_end, refl, (lo, omega arith, inl refl))
block_end_loop-IsEnd E zero s begin end max_end i (b ∷ bytes) enough e lo hi small =
    absurd (omega (arith, enough))
block_end_loop-IsEnd E (suc fuel) s begin end max_end i (b ∷ bytes) enough e lo hi small =
    let seen = observe_input s b bytes in
    let (one, most) = observe_input-range s b bytes in
    let i' = i + seen.0 in
    let size = length-drop seen.0 (b ∷ bytes) in
    elim (Bool-cases (end_test seen.1 begin (begin + i') end).0) [
      | inl a ↦
          let (p, q) =
            end_test-range seen.1 begin (begin + i') end (omega arith) (omega (arith, e, most, hi))
              small a in
          (begin + i', rw a refl, (omega (arith, one), omega (arith, e, most), inr (p, q)))
      | inr a ↦
          let (r, eq, place) =
            block_end_loop-IsEnd E fuel (end_test seen.1 begin (begin + i') end).1 begin end max_end
              i' (drop seen.0 (b ∷ bytes)) (omega (arith, size, one, enough))
              (omega (arith, size, most, e)) lo hi small in
          (r, rw a eq, place)
    ]

max_end-range :
    (begin end max_len : ℕ)
    → begin < end
    → end < 2 ^ 63
    → 0 < max_len
    → max_len < 2 ^ 63
    → (begin < max_end_for begin end max_len)
      × (max_end_for begin end max_len ≤ end)
      × (max_end_for begin end max_len ≤ begin + max_len + 5000)
      × ((max_end_for begin end max_len ≡ end) ⊎ (max_end_for begin end max_len ≡ begin + max_len))
unfolding max_end_for
max_end-range begin end max_len lo small pos max_small =
    let span : sub64 end begin ≡ end - begin = omega arith in
    let cap : add64 max_len 5000 ≡ max_len + 5000 = omega arith in
    let far : add64 begin max_len ≡ begin + max_len = omega arith in
    elim (Bool-cases (leb (sub64 end begin) (add64 max_len 5000))) [
      | inl a ↦
          let near = leb→le (sub64 end begin) (add64 max_len 5000) a in
          rw a (lo, omega arith, omega (arith, near, span, cap), inl refl)
      | inr a ↦
          let near = leb→gt (sub64 end begin) (add64 max_len 5000) a in
          rw (a, far) (omega arith, omega (arith, near, span, cap), omega arith, inr refl)
    ]

block_end_within-IsEnd {ℓ} :
    (E : Type ℓ) (input : List ℕ) (begin end max_end : ℕ)
    → begin < max_end
    → max_end ≤ end
    → end ≤ length input
    → end < 2 ^ 64
    → (r : ℕ) × (block_end_within {E = E} input begin end max_end ≡ ok r)
      × IsEnd begin end max_end r
unfolding block_end_within
block_end_within-IsEnd E input begin end max_end lo hi le small =
    let bytes = take (max_end - begin) (drop begin input) in
    let s : Seen = record { stats = new; hist = no_observations; n = 0 } in
    let size : length bytes ≡ max_end - begin =
      length-take (max_end - begin) (drop begin input) ∙ omega (arith, length-drop begin input) in
    let (r, eq, place) =
      block_end_loop-IsEnd E (length bytes) s begin end max_end 0 bytes (omega arith)
        (omega (arith, size)) lo hi small in
    (
      r,
      rw (ge→ltb max_end begin (omega arith), ge→ltb (length input) max_end (omega arith)) eq,
      place,
    )

-- With a block to end, `input_block_end` ends it: behind its start, by the end of the input, by the
-- cap and what it may be raised by, and with 5000 bytes on either side unless it is the cap. The
-- slice is in bounds and the loop ends.
pub input_block_end-progress {ℓ} :
    (E : Type ℓ) (input : List ℕ) (begin end max_len : ℕ)
    → begin < end
    → end ≤ length input
    → length input < 2 ^ 63
    → 0 < max_len
    → max_len < 2 ^ 63
    → (r : ℕ) × (input_block_end {E = E} input begin end max_len ≡ ok r)
      × (begin < r)
      × (r ≤ end)
      × (r ≤ begin + max_len + 5000)
      × ((r ≡ end) ⊎ (r ≡ begin + max_len) ⊎ (begin + 5000 ≤ r) × (r + 5000 ≤ end))
unfolding input_block_end
input_block_end-progress E input begin end max_len lo hi small pos max_small =
    let (ahead, by_end, by_cap, which) =
      max_end-range begin end max_len lo (omega arith) pos max_small in
    let (r, eq, (behind, by_max, place)) =
      block_end_within-IsEnd E input begin end (max_end_for begin end max_len) ahead by_end hi
        (omega arith) in
    (
      r,
      eq,
      behind,
      omega (arith, by_max, by_end),
      omega (arith, by_max, by_cap),
      elim place [
        | inr q ↦ inr (inr q)
        | inl q ↦ elim which [ inl w ↦ inl (q ∙ w) | inr w ↦ inr (inl (q ∙ w)) ]
      ],
    )
