-- ===== src/Decompress/Refill/Window.antt =====
-- What the bit buffer holds: a window on the input, read as one number, from the first bit that is
-- not consumed. The branchless refill leaves bits above `bitsleft` in the buffer; they belong to
-- the window too, and the next refill reads them again.
use zenflate.Prelude.{
  ℕ, zero, suc, ◌+◌, ◌-◌, ◌*◌, ◌/◌, ◌%◌, ◌^◌, ◌≤◌, ◌<◌, max, bit_or, List, length, get_or, leb, ltb,
  arith, ◌≡◌, refl, ap, ◌∙◌, sym, inl, inr, All, Bool-cases, ge→ltb, ltb→lt, ltb→ge, leb→le,
}
use zenflate.Prelude.Arith.{div_add, div_window}
use native.Mathlib.Decide.{dec_lt}
use zenflate.Prelude.Bits.{bit_or-zero, bit_and_seven, agree_below, agree_below→eq}
use zenflate.Prelude.Bits.Window.{bit_or_window}
use zenflate.Prelude.Words.{IsByte, shl64, shl64-fits}
use zenflate.Outcome.{ok}
use zenflate.Decompress.Refill.Number.{number, byte_at, word_at, shl_window, number-lt_end}
use zenflate.Decompress.Refill.{
  BitReader, load_u64_le, refill_bits_fast, load_byte, refill_loop, refill_bits, consume,
}

-- The reader stands behind `c` bits of the input. `held` bits of its buffer are the input's.
pub record Reads (input : List ℕ) (c : ℕ) (s : BitReader) : Type 0 where
  pub held : ℕ
  pub bits_held : s.bitsleft ≤ held
  pub held_le : held ≤ 64
  pub window : s.bitbuf ≡ number input / 2 ^ c % 2 ^ held
  pub at : c + s.bitsleft ≡ 8 * (s.in_pos + s.overread_count)
  pub bits_le : s.bitsleft ≤ 63
  pub pos_le : s.in_pos ≤ length input
  pub past_end : s.in_pos < length input → s.overread_count ≡ 0

or_56 : (b : ℕ) → b < 64 → bit_or b 56 ≡ 56 + b % 8
unfolding agree_below
or_56 = agree_below→eq _ _ 64 refl

pos_bits : (c b p o : ℕ) → o ≡ 0 → c + b ≡ 8 * (p + o) → 8 * p ≡ c + b
pos_bits c b p o e h = omega arith

refill_bits_fast-Reads :
    (input : List ℕ) (c : ℕ) (s : BitReader)
    → All IsByte input
    → Reads input c s
    → s.in_pos + 8 ≤ length input
    → Reads input c (refill_bits_fast s input) × (56 ≤ (refill_bits_fast s input).bitsleft)
unfolding refill_bits_fast
refill_bits_fast-Reads input c s hb r h =
    let x = number input / 2 ^ c in
    let b = s.bitsleft in
    let o = r.past_end (omega arith) in
    let eo = or_56 b (omega (arith, r.bits_le)) in
    let es = bit_and_seven (b / 8) in
    let ew : shl64 (load_u64_le input s.in_pos) b ≡ x / 2 ^ b % 2 ^ (64 - b) * 2 ^ b =
      ap (λ t. shl64 t b)
        (word_at input s.in_pos hb
          ∙ ap (λ (t : ℕ). t % 2 ^ 64)
              (ap (λ (t : ℕ). number input / 2 ^ t) (pos_bits c b s.in_pos s.overread_count o r.at)
                ∙ div_add (number input) c b))
      ∙ shl_window (x / 2 ^ b) b 64 (64 - b) r.bits_le refl (omega arith) in
    (
      record {
        held = 64;
        bits_held = omega (arith, r.bits_le);
        held_le = omega arith;
        window =
            rw (r.window, ew)
              (bit_or_window b r.held (64 - b) 64 x r.bits_held
                (omega (arith, r.held_le, r.bits_le)));
        at = omega (arith, r.at, r.bits_le);
        bits_le = omega arith;
        pos_le = omega arith;
        past_end = λ _. o;
      },
      omega arith,
    )

-- To consume `n` bits, of the bits that the buffer holds, moves the window on the input by `n`
-- bits, and `n` fewer are left.
pub consume-Reads :
    (input : List ℕ) (c n : ℕ) (s : BitReader)
    → Reads input c s
    → n ≤ s.bitsleft
    → Reads input (c + n) (consume s n) × ((consume s n).bitsleft ≡ s.bitsleft - n)
unfolding consume
consume-Reads input c n s r h =
    let small : n % 64 ≡ n = omega (arith, r.bits_le) in
    let left : (s.bitsleft + 2 ^ 32 - n) % 2 ^ 32 ≡ s.bitsleft - n = omega (arith, r.bits_le) in
    (
      record {
        held = r.held - n;
        bits_held = omega (arith, r.bits_held);
        held_le = omega (arith, r.held_le);
        window =
            ap (λ (t : ℕ). s.bitbuf / 2 ^ t) small
            ∙ ap (λ (t : ℕ). t / 2 ^ n) r.window
            ∙ div_window (number input / 2 ^ c) r.held n (omega (arith, r.bits_held))
            ∙ ap (λ (t : ℕ). t % 2 ^ (r.held - n)) (sym (div_add (number input) c n));
        at = omega (arith, r.at);
        bits_le = omega (arith, r.bits_le);
        pos_le = r.pos_le;
        past_end = r.past_end;
      },
      left,
    )

-- A byte of the window, or a zero byte behind the end.
load_byte-Reads :
    (input : List ℕ) (c : ℕ) (s : BitReader)
    → All IsByte input
    → Reads input c s
    → s.bitsleft < 56
    → Reads input c (load_byte s input) × ((load_byte s input).bitsleft ≡ s.bitsleft + 8)
unfolding load_byte
load_byte-Reads input c s hb r h =
    let x = number input / 2 ^ c in
    let b = s.bitsleft in
    let held' = max r.held (b + 8) in
    elim (Bool-cases (ltb s.in_pos (length input))) [
      | inl more ↦
          let lt = ltb→lt s.in_pos (length input) more in
          let o = r.past_end lt in
          let ew : shl64 (get_or input s.in_pos 0) b ≡ x / 2 ^ b % 2 ^ 8 * 2 ^ b =
            ap (λ t. shl64 t b)
              (byte_at input s.in_pos hb
                ∙ ap (λ (t : ℕ). t % 2 ^ 8)
                    (ap (λ (t : ℕ). number input / 2 ^ t)
                        (pos_bits c b s.in_pos s.overread_count o r.at)
                      ∙ div_add (number input) c b))
            ∙ shl64-fits b 8 (x / 2 ^ b % 2 ^ 8) (omega arith) (omega arith) (omega arith) in
          rw more (
            record {
              held = held';
              bits_held = omega arith;
              held_le = omega (arith, r.held_le);
              window = rw (r.window, ew) (bit_or_window b r.held 8 held' x r.bits_held refl);
              at = omega (arith, r.at);
              bits_le = omega arith;
              pos_le = omega arith;
              past_end = λ _. o;
            },
            omega arith,
          )
      | inr none_left ↦
          let ge = ltb→ge s.in_pos (length input) none_left in
          let z : x / 2 ^ b % 2 ^ 8 * 2 ^ b ≡ 0 =
            ap (λ (t : ℕ). t % 2 ^ 8 * 2 ^ b)
              (sym (div_add (number input) c b)
                ∙ number-lt_end input (c + b) hb (omega (arith, r.at)))
            ∙ omega arith in
          rw none_left (
            record {
              held = held';
              bits_held = omega arith;
              held_le = omega (arith, r.held_le);
              window =
                  r.window
                  ∙ sym (bit_or-zero (x % 2 ^ r.held))
                  ∙ ap (bit_or (x % 2 ^ r.held)) (sym z)
                  ∙ bit_or_window b r.held 8 held' x r.bits_held refl;
              at = omega (arith, r.at);
              bits_le = omega arith;
              pos_le = r.pos_le;
              past_end = λ l. absurd (omega arith);
            },
            omega arith,
          )
    ]

overread_le :
    (len c b p o : ℕ)
    → c + b ≡ 8 * (p + o)
    → b ≤ 63
    → p ≤ len
    → (p < len → o ≡ 0)
    → c ≤ 8 * len
    → o ≤ 8
overread_le len c b p o at h k past g = elim (dec_lt p len) [
  | yes l ↦ omega (arith, past l)
  | no n ↦ omega arith
]

refill_loop-Reads {ℓ} :
    (R : Type ℓ) (fuel : ℕ) (input : List ℕ) (c : ℕ) (s : BitReader)
    → All IsByte input
    → Reads input c s
    → c ≤ 8 * length input
    → 56 ≤ s.bitsleft + 8 * fuel
    → (s' : BitReader) × (refill_loop {R = R} fuel s input ≡ ok s')
      × Reads input c s'
      × (56 ≤ s'.bitsleft)
unfolding refill_loop
refill_loop-Reads R zero input c s hb r h g = (s, refl, r, omega arith)
refill_loop-Reads R (suc fuel) input c s hb r h g = elim (Bool-cases (ltb s.bitsleft 56)) [
  | inl few ↦
      let (r', e) = load_byte-Reads input c s hb r (ltb→lt s.bitsleft 56 few) in
      let t = load_byte s input in
      let o : t.overread_count ≤ 8 =
        overread_le (length input) c t.bitsleft t.in_pos t.overread_count r'.at r'.bits_le r'.pos_le
          r'.past_end h in
      let (s', eq, r'', full) = refill_loop-Reads R fuel input c t hb r' h (omega arith) in
      (s', rw (few, ge→ltb 8 t.overread_count o) eq, r'', full)
  | inr enough ↦ (s, rw enough, r, ltb→ge s.bitsleft 56 enough)
]

-- `refill_bits` by either path: for an input of bytes, and while no bit behind its end has been
-- consumed, it succeeds, the buffer is the same window on the input, and at least 56 bits are in
-- it.
pub refill_bits-Reads {ℓ} :
    (R : Type ℓ) (input : List ℕ) (c : ℕ) (s : BitReader)
    → All IsByte input
    → Reads input c s
    → c ≤ 8 * length input
    → (s' : BitReader) × (refill_bits {R = R} s input ≡ ok s')
      × Reads input c s'
      × (56 ≤ s'.bitsleft)
unfolding refill_bits
refill_bits-Reads R input c s hb r h = elim (Bool-cases (leb (s.in_pos + 8) (length input))) [
  | inl word ↦
      let (r', e) = refill_bits_fast-Reads input c s hb r (leb→le _ _ word) in
      (refill_bits_fast s input, rw word, r', e)
  | inr bytes ↦
      let (s', eq, r'', full) = refill_loop-Reads R 7 input c s hb r h (omega arith) in
      (s', rw bytes eq, r'', full)
]
