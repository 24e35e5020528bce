-- ===== src/Bitstream/Flush.antt =====
-- `flush_bits`, by words and by bytes, keeps the number that the stream stands for.
use zenflate.Prelude.{
  ℕ, zero, suc, ◌+◌, ◌-◌, ◌*◌, ◌/◌, ◌%◌, ◌^◌, ◌≤◌, ◌<◌, bit_and, true, List, [], ◌∷◌, ◌++◌, length,
  take, length-take, leb, ltb, arith, ◌≡◌, refl, ap, ◌∙◌, inl, inr, Bool-cases, leb→le, leb→gt,
  lt→ltb, ltb→lt, le→leb, gt→leb,
}
use zenflate.Prelude.Arith.{two_pow_add, div_mod_two_pow, div_two_pow-lt}
use zenflate.Prelude.Bits.{bit_and_not_seven, bit_and_seven}
use zenflate.Prelude.Words.{
  from_le_bytes, to_le_bytes, take-to_le_bytes, from_le_bytes-append, from-to_le_bytes,
  length-to_le_bytes,
}
use zenflate.Prelude.Buffer.{write, length-write, take-write}
use zenflate.Bitstream.{OutputBitstream, flush_byte, drop_bits, flush_loop, flush_word, flush_bits}
use zenflate.Bitstream.Value.{IsValid, stream, size}

-- Moving the `k` low bytes of `x` from the bit buffer to the output.
move_bytes :
    (k n x pos : ℕ) (buf : List ℕ)
    → k ≤ n
    → pos ≤ length buf
    → from_le_bytes (take (pos + k) (write buf pos (to_le_bytes n x)))
        + x / 2 ^ (8 * k) * 2 ^ (8 * (pos + k))
      ≡ from_le_bytes (take pos buf) + x * 2 ^ (8 * pos)
move_bytes k n x pos buf h g =
    let low = x % 2 ^ (8 * k) in
    let high = x / 2 ^ (8 * k) in
    let at : length (take pos buf) ≡ pos = omega (arith, length-take pos buf) in
    let front : from_le_bytes (take (pos + k) (write buf pos (to_le_bytes n x)))
        ≡ from_le_bytes (take pos buf) + low * 2 ^ (8 * pos) =
      ap from_le_bytes (
        take-write k buf pos (to_le_bytes n x) g (omega (arith, length-to_le_bytes n x))
        ∙ ap (λ t. take pos buf ++ t) (take-to_le_bytes k n x h))
      ∙ from_le_bytes-append (take pos buf) (to_le_bytes k x)
      ∙ rw (at, from-to_le_bytes k x) refl in
    let shift : 2 ^ (8 * (pos + k)) ≡ 2 ^ (8 * pos) * 2 ^ (8 * k) =
      ap (λ (t : ℕ). 2 ^ t) (eight pos k) ∙ two_pow_add (8 * pos) (8 * k) in
    omega (
      arith,
      front,
      ap (λ (t : ℕ). high * t) shift,
      ap (λ (t : ℕ). t * 2 ^ (8 * pos)) (div_mod_two_pow x (8 * k)),
    )
  where
    eight : (a b : ℕ) → 8 * (a + b) ≡ 8 * a + 8 * b
    eight a b = omega arith

split : (c : ℕ) → c ≡ 8 * (c / 8) + c % 8
split c = omega arith

pub record Flushed (os os' : OutputBitstream) : Type 0 where
  pub valid : IsValid os'
  pub same_stream : stream os' ≡ stream os
  pub same_size : size os' ≡ size os

flush_word-Flushed :
    (os : OutputBitstream) → IsValid os → os.pos + 8 ≤ length os.buf → Flushed os (flush_word os)
unfolding flush_word
flush_word-Flushed os v h =
    let k = os.bitcount / 8 in
    let e : bit_and os.bitcount 0xfffffff8 % 64 ≡ 8 * k =
      omega (arith, bit_and_not_seven os.bitcount (omega arith)) in
    let f = bit_and_seven os.bitcount in
    let len =
      length-write os.buf os.pos (to_le_bytes 8 os.bitbuf)
        (omega (arith, length-to_le_bytes 8 os.bitbuf)) in
    record {
      valid = record {
        bits_fit =
            rw (e, f)
              (div_two_pow-lt os.bitbuf (8 * k) (os.bitcount % 8)
                (rw (← split os.bitcount) v.bits_fit));
        count_le = omega arith;
        pos_le = omega arith;
      };
      same_stream = rw e (move_bytes k 8 os.bitbuf os.pos os.buf (omega arith) (omega arith));
      same_size = omega arith;
    }

flush_byte-Flushed :
    (os : OutputBitstream)
    → IsValid os
    → os.pos < length os.buf
    → 8 ≤ os.bitcount
    → Flushed os (flush_byte os)
unfolding flush_byte to_le_bytes
flush_byte-Flushed os v h g =
    let e : (os.bitcount + 2 ^ 32 - 8) % 2 ^ 32 ≡ os.bitcount - 8 = omega arith in
    let len = length-write os.buf os.pos ((os.bitbuf % 256) ∷ []) (omega arith) in
    record {
      valid = record {
        bits_fit = rw e (
            div_two_pow-lt os.bitbuf 8 (os.bitcount - 8)
              (rw (← eight_more os.bitcount g) v.bits_fit));
        count_le = omega arith;
        pos_le = omega arith;
      };
      same_stream = move_bytes 1 1 os.bitbuf os.pos os.buf (omega arith) (omega arith);
      same_size = omega arith;
    }
  where
    eight_more : (c : ℕ) → 8 ≤ c → c ≡ 8 + (c - 8)
    eight_more c le = omega arith

-- A flush that had room: less than a byte is left, and nothing else of the stream changed.
pub record Done (os os' : OutputBitstream) : Type 0 where
  pub flushed : Flushed os os'
  pub count_lt : os'.bitcount < 8
  pub same_overflow : os'.overflow ≡ os.overflow
  pub same_length : length os'.buf ≡ length os.buf

-- A flush that had none.
pub record Full (os os' : OutputBitstream) : Type 0 where
  pub valid : IsValid os'
  pub count_lt : os'.bitcount < 8
  pub overflowed : os'.overflow ≡ true
  pub same_length : length os'.buf ≡ length os.buf

Flushed-refl : (os : OutputBitstream) → IsValid os → Flushed os os
Flushed-refl os v = record { valid = v; same_stream = refl; same_size = refl }

flush_byte-fields :
    (os : OutputBitstream)
    → os.pos < length os.buf
    → 8 ≤ os.bitcount
    → os.bitcount ≤ 63
    → ((flush_byte os).bitcount + 8 ≡ os.bitcount)
      × ((flush_byte os).pos ≡ os.pos + 1)
      × (length (flush_byte os).buf ≡ length os.buf)
unfolding flush_byte
flush_byte-fields os h g k =
    (omega arith, refl, length-write os.buf os.pos ((os.bitbuf % 256) ∷ []) (omega arith))

Done-flush_byte :
    {os os' : OutputBitstream}
    → IsValid os
    → os.pos < length os.buf
    → 8 ≤ os.bitcount
    → Done (flush_byte os) os'
    → Done os os'
unfolding flush_byte
Done-flush_byte {os} v h g d =
    let f = flush_byte-Flushed os v h g in
    let len = length-write os.buf os.pos ((os.bitbuf % 256) ∷ []) (omega arith) in
    record {
      flushed = record {
        valid = d.flushed.valid;
        same_stream = d.flushed.same_stream ∙ f.same_stream;
        same_size = d.flushed.same_size ∙ f.same_size;
      };
      count_lt = d.count_lt;
      same_overflow = d.same_overflow;
      same_length = d.same_length ∙ len;
    }

flush_loop-Done :
    (fuel : ℕ) (os : OutputBitstream)
    → IsValid os
    → os.bitcount ≤ fuel
    → os.pos + os.bitcount / 8 ≤ length os.buf
    → Done os (flush_loop fuel os)
unfolding flush_loop
flush_loop-Done zero os v h room = record {
  flushed = Flushed-refl os v;
  count_lt = omega arith;
  same_overflow = refl;
  same_length = refl;
}
flush_loop-Done (suc fuel) os v h room = elim (Bool-cases (leb 8 os.bitcount)) [
  | inl more ↦
      let g = leb→le 8 os.bitcount more in
      let h' = lt→ltb os.pos (length os.buf) (omega arith) in
      let f = (flush_byte-Flushed os v (omega arith) g).valid in
      let (b, p, l) = flush_byte-fields os (omega arith) g v.count_le in
      rw (more, h')
        (Done-flush_byte v (omega arith) g
          (flush_loop-Done fuel (flush_byte os) f (omega arith) (omega arith)))
  | inr few ↦ rw few (record {
    flushed = Flushed-refl os v;
    count_lt = leb→gt 8 os.bitcount few;
    same_overflow = refl;
    same_length = refl;
  })
]

drop_bits-Full : (os : OutputBitstream) → IsValid os → Full os (drop_bits os)
unfolding drop_bits
drop_bits-Full os v = record {
  valid = record { bits_fit = omega arith; count_le = omega arith; pos_le = v.pos_le };
  count_lt = omega arith;
  overflowed = refl;
  same_length = refl;
}

flush_word-Done :
    (os : OutputBitstream) → IsValid os → os.pos + 8 ≤ length os.buf → Done os (flush_word os)
flush_word-Done os v h = record {
  flushed = flush_word-Flushed os v h;
  count_lt = unfold flush_word in omega (arith, bit_and_seven os.bitcount);
  same_overflow = unfold flush_word in refl;
  same_length =
      unfold flush_word in
      length-write os.buf os.pos (to_le_bytes 8 os.bitbuf)
        (omega (arith, length-to_le_bytes 8 os.bitbuf));
}

flush_loop-Full :
    (fuel : ℕ) (os : OutputBitstream)
    → IsValid os
    → os.bitcount ≤ fuel
    → length os.buf < os.pos + os.bitcount / 8
    → Full os (flush_loop fuel os)
unfolding flush_loop
flush_loop-Full zero os v h none_left = absurd (omega (arith, v.pos_le))
flush_loop-Full (suc fuel) os v h none_left =
    let g : 8 ≤ os.bitcount = omega (arith, v.pos_le) in
    let more = le→leb 8 os.bitcount g in
    elim (Bool-cases (ltb os.pos (length os.buf))) [
      | inl room ↦
          let lt = ltb→lt os.pos (length os.buf) room in
          let f = (flush_byte-Flushed os v lt g).valid in
          let (b, p, l) = flush_byte-fields os lt g v.count_le in
          let rest = flush_loop-Full fuel (flush_byte os) f (omega arith) (omega arith) in
          rw (more, room)
            (record {
              valid = rest.valid;
              count_lt = rest.count_lt;
              overflowed = rest.overflowed;
              same_length = rest.same_length ∙ l;
            })
      | inr no_room ↦ rw (more, no_room) (drop_bits-Full os v)
    ]

-- On a valid stream with room for its whole bytes, `flush_bits` keeps every bit, leaves fewer
-- than 8 in the buffer, and changes neither the flag nor the buffer's length, by either path.
pub flush_bits-Done :
    (os : OutputBitstream)
    → IsValid os
    → os.pos + os.bitcount / 8 ≤ length os.buf
    → Done os (flush_bits os)
unfolding flush_bits
flush_bits-Done os v room = elim (Bool-cases (leb (os.pos + 8) (length os.buf))) [
  | inl word ↦ rw word (flush_word-Done os v (leb→le _ _ word))
  | inr bytes ↦ rw bytes (flush_loop-Done os.bitcount os v (omega arith) room)
]

-- On a valid stream without that room, `flush_bits` sets `overflow`, and leaves a valid stream
-- over a buffer of the same length with fewer than 8 bits held.
pub flush_bits-Full :
    (os : OutputBitstream)
    → IsValid os
    → length os.buf < os.pos + os.bitcount / 8
    → Full os (flush_bits os)
unfolding flush_bits
flush_bits-Full os v none_left =
    rw (gt→leb (os.pos + 8) (length os.buf) (omega arith))
      (flush_loop-Full os.bitcount os v (omega arith) none_left)
