-- ===== src/Compress/Slots/Covers.antt =====
-- The slots of src/compress/block.rs: a length or an offset lies in the range of its slot.
use zenflate.Prelude.{
  ℕ, zero, suc, ◌+◌, ◌-◌, ◌*◌, ◌/◌, ◌^◌, ◌≤◌, ◌<◌, List, [], ◌∷◌, length, get_or, ltb, leb, ltb→lt,
  leb→le, leb→gt, ge→ltb, ◌&&◌, Bool, true, false, if◌then◌else◌, arith, ◌≡◌, refl, sym, ◌∙◌,
  Bool-cases, inl, inr,
}
use mathlib.Core.Path.{subst}
use zenflate.Compress.Slots.{
  length_slot, length_slots, fill_lengths, offset_slot_small, offset_slots, fill_offsets,
  get_offset_slot, deflate_length_base, deflate_length_extra_bits, deflate_offset_base,
  deflate_offset_extra_bits,
}
use zenflate.Prelude.Words.{sub32}

-- The values from `first` to `last` lie in the range of `slot`, the `count` first slots of which are
-- in use.
abbrev pub Covers : ℕ → List ℕ → List ℕ → ℕ → ℕ → ℕ → Type 0
Covers count bases extras slot first last =
    (slot < count)
    × (get_or bases slot 0 ≤ first)
    × (last < get_or bases slot 0 + 2 ^ get_or extras slot 0)

abbrev covers : ℕ → List ℕ → List ℕ → ℕ → ℕ → ℕ → Bool
covers count bases extras slot first last =
    ltb slot count
    && (leb (get_or bases slot 0) first
        && ltb last (get_or bases slot 0 + 2 ^ get_or extras slot 0))

and_both : (a b : Bool) → (a && b) ≡ true → (a ≡ true) × (b ≡ true)
and_both a b e = ground arith

covers-Covers :
    (n : ℕ) (bases extras : List ℕ) (slot first last : ℕ)
    → covers n bases extras slot first last ≡ true
    → Covers n bases extras slot first last
covers-Covers n bases extras slot first last e =
    let a =
      and_both (ltb slot n)
        (leb (get_or bases slot 0) first
          && ltb last (get_or bases slot 0 + 2 ^ get_or extras slot 0))
        e in
    let b =
      and_both (leb (get_or bases slot 0) first)
        (ltb last (get_or bases slot 0 + 2 ^ get_or extras slot 0)) a.1 in
    (
      ltb→lt slot n a.0,
      leb→le (get_or bases slot 0) first b.0,
      ltb→lt last (get_or bases slot 0 + 2 ^ get_or extras slot 0) b.1,
    )

if_false : (b x y : Bool) → b ≡ false → (if b then x else y) ≡ y
if_false b x y e = ground arith

-- Check every entry of a table by evaluation.
module _ (f : ℕ → ℕ → Bool) where
  unfoldable every : ℕ → List ℕ → Bool
  every i [] = true
  every i (s ∷ ss) = f i s && every (suc i) ss

  every-get_or :
      (i : ℕ) (ss : List ℕ)
      → every i ss ≡ true
      → (k : ℕ) → k < length ss
      → f (i + k) (get_or ss k 0) ≡ true
  unfolding every
  every-get_or i [] e k h = absurd (omega (arith, h))
  every-get_or i (s ∷ ss) e zero h =
      subst (λ (j : ℕ). f j s ≡ true) (omega arith) (and_both (f i s) (every (suc i) ss) e).0
  every-get_or i (s ∷ ss) e (suc k) h =
      subst (λ (j : ℕ). f j (get_or ss k 0) ≡ true) (omega arith)
        (every-get_or (suc i) ss (and_both (f i s) (every (suc i) ss) e).1 k (omega (arith, h)))

  every-entry :
      (ss : List ℕ) → every 0 ss ≡ true → (k : ℕ) → k < length ss → f k (get_or ss k 0) ≡ true
  every-entry ss e k h =
      subst (λ (j : ℕ). f j (get_or ss k 0) ≡ true) (omega arith) (every-get_or 0 ss e k h)

abbrev length_covers : ℕ → ℕ → Bool
length_covers i s =
    if ltb i 3 then true else covers 29 deflate_length_base deflate_length_extra_bits s i i

every_length : every length_covers 0 length_slot ≡ true
unfolding every length_slot length_slots fill_lengths
every_length = refl

length-length_slot : length length_slot ≡ 259
unfolding length_slot length_slots fill_lengths
length-length_slot = refl

abbrev near_covers : ℕ → ℕ → Bool
near_covers i s = covers 30 deflate_offset_base deflate_offset_extra_bits s (i + 1) (i + 1)

abbrev far_covers : ℕ → ℕ → Bool
far_covers i s =
    if ltb i 2
    then true
    else covers 30 deflate_offset_base deflate_offset_extra_bits (s + 14) (128 * i + 1)
        (128 * i + 128)

every_near : every near_covers 0 offset_slot_small ≡ true
unfolding every offset_slot_small offset_slots fill_offsets
every_near = refl

every_far : every far_covers 0 offset_slot_small ≡ true
unfolding every offset_slot_small offset_slots fill_offsets
every_far = refl

length-offset_slot_small : length offset_slot_small ≡ 256
unfolding offset_slot_small offset_slots fill_offsets
length-offset_slot_small = refl

-- A match length of 3 to 258 lies in the range of its length slot.
pub length_slot-Covers :
    (len : ℕ)
    → 3 ≤ len
    → len ≤ 258
    → Covers 29 deflate_length_base deflate_length_extra_bits (get_or length_slot len 0) len len
length_slot-Covers len low high =
    covers-Covers 29 deflate_length_base deflate_length_extra_bits (get_or length_slot len 0) len
      len
      (sym (
          if_false (ltb len 3) true
            (covers 29 deflate_length_base deflate_length_extra_bits (get_or length_slot len 0) len
              len)
            (ge→ltb len 3 low))
        ∙ every-entry length_covers length_slot every_length len
            (omega (arith, high, length-length_slot)))

get_offset_slot-near :
    (offset : ℕ)
    → 1 ≤ offset
    → offset ≤ 256
    → get_offset_slot offset ≡ get_or offset_slot_small (offset - 1) 0
unfolding get_offset_slot
get_offset_slot-near offset low high =
    let e : sub32 256 offset / 2 ^ 29 ≡ 0 = omega arith in
    let one : (offset - 1) / 2 ^ 0 ≡ offset - 1 = omega arith in rw (e, one) (omega arith)

get_offset_slot-far :
    (offset : ℕ)
    → 257 ≤ offset
    → offset ≤ 32768
    → get_offset_slot offset ≡ get_or offset_slot_small ((offset - 1) / 128) 0 + 14
unfolding get_offset_slot
get_offset_slot-far offset low high =
    let e : sub32 256 offset / 2 ^ 29 ≡ 7 = omega arith in rw e (omega arith)

near_entry :
    (i : ℕ)
    → i < 256
    → Covers 30 deflate_offset_base deflate_offset_extra_bits
        (get_or offset_slot_small i 0)
        (i + 1)
        (i + 1)
near_entry i lt =
    covers-Covers 30 deflate_offset_base deflate_offset_extra_bits (get_or offset_slot_small i 0)
      (i + 1) (i + 1)
      (every-entry near_covers offset_slot_small every_near i
        (omega (arith, lt, length-offset_slot_small)))

far_entry :
    (offset : ℕ)
    → 257 ≤ offset
    → offset ≤ 32768
    → Covers 30 deflate_offset_base deflate_offset_extra_bits
        (get_or offset_slot_small ((offset - 1) / 128) 0 + 14)
        offset
        offset
far_entry offset low high =
    let i = (offset - 1) / 128 in
    let slot = get_or offset_slot_small i 0 + 14 in
    let least : 2 ≤ i = omega arith in
    let most : i < length offset_slot_small = omega (arith, length-offset_slot_small) in
    let c =
      covers-Covers 30 deflate_offset_base deflate_offset_extra_bits slot (128 * i + 1)
        (128 * i + 128)
        (sym (
            if_false (ltb i 2) true
              (covers 30 deflate_offset_base deflate_offset_extra_bits slot (128 * i + 1)
                (128 * i + 128))
              (ge→ltb i 2 least))
          ∙ every-entry far_covers offset_slot_small every_far i most) in
    let from : 128 * i + 1 ≤ offset = omega arith in
    let to : offset ≤ 128 * i + 128 = omega arith in
    (c.0, omega (arith, c.1, from), omega (arith, c.2, to))

-- The slot of a match offset of 1 to 32768 is one of the 30 in use, and the offset lies in the range
-- of its base value and extra bits.
pub get_offset_slot-Covers :
    (offset : ℕ)
    → 1 ≤ offset
    → offset ≤ 32768
    → Covers 30 deflate_offset_base deflate_offset_extra_bits (get_offset_slot offset) offset offset
get_offset_slot-Covers offset low high = elim (Bool-cases (leb offset 256)) [
  | inl near ↦
      let small : offset ≤ 256 = leb→le offset 256 near in
      let e : offset - 1 + 1 ≡ offset = omega arith in
      subst (λ (s : ℕ). Covers 30 deflate_offset_base deflate_offset_extra_bits s offset offset)
        (sym (get_offset_slot-near offset low small))
        (subst
          (λ (x : ℕ).
            Covers 30 deflate_offset_base deflate_offset_extra_bits
              (get_or offset_slot_small (offset - 1) 0) x x)
          e (near_entry (offset - 1) (omega (arith, small))))
  | inr far ↦
      let large : 257 ≤ offset = omega (arith, leb→gt offset 256 far) in
      subst (λ (s : ℕ). Covers 30 deflate_offset_base deflate_offset_extra_bits s offset offset)
        (sym (get_offset_slot-far offset large high)) (far_entry offset large high)
]
