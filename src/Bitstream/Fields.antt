-- ===== src/Bitstream/Fields.antt =====
-- Any sequence of bit fields, each added and flushed as the compressor's writers do.
use zenflate.Prelude.{
  ℕ, ◌+◌, ◌*◌, ◌^◌, ◌≤◌, ◌<◌, true, List, [], ◌∷◌, length, arith, ◌≡◌, refl, ap, ◌∙◌, inl, inr, All,
  Bool-cases, ltb, ltb→lt, ltb→ge,
}
use zenflate.Prelude.Arith.{two_pow_add}
use zenflate.Bitstream.{OutputBitstream, add_bits, flush_bits}
use zenflate.Bitstream.Value.{IsValid, stream, size, add_bits-stream}
use zenflate.Bitstream.Flush.{Full, flush_bits-Done, flush_bits-Full}

-- A value and its number of bits.
abbrev pub Field : Type 0
Field = ℕ × ℕ

-- The value fits its bits, and the bits fit beside the 7 that a flush may leave (`can_buffer`).
abbrev pub IsField : Field → Type 0
IsField (bits, n) = (bits < 2 ^ n) × (n ≤ 56)

abbrev pub put_all : OutputBitstream → List Field → OutputBitstream
put_all os [] = os
put_all os ((bits, n) ∷ fields) = put_all (flush_bits (add_bits os bits n)) fields

-- The number that the fields make, and its bits.
abbrev pub value : List Field → ℕ
value [] = 0
value ((bits, n) ∷ fields) = bits + value fields * 2 ^ n

abbrev pub width : List Field → ℕ
width [] = 0
width ((bits, n) ∷ fields) = n + width fields

pub add_bits-kept :
    (os : OutputBitstream) (bits n : ℕ)
    → ((add_bits os bits n).pos ≡ os.pos)
      × ((add_bits os bits n).buf ≡ os.buf)
      × ((add_bits os bits n).overflow ≡ os.overflow)
unfolding add_bits
add_bits-kept os bits n = (refl, refl, refl)

pub record Written (os : OutputBitstream) (fields : List Field) (os' : OutputBitstream)
    : Type 0 where
  pub valid : IsValid os'
  pub count_lt : os'.bitcount < 8
  pub all_bits : stream os' ≡ stream os + value fields * 2 ^ size os
  pub all_counted : size os' ≡ size os + width fields
  pub same_overflow : os'.overflow ≡ os.overflow
  pub same_length : length os'.buf ≡ length os.buf

-- One field that has room.
put-Done :
    (os : OutputBitstream) (bits n : ℕ)
    → IsValid os
    → os.bitcount < 8
    → bits < 2 ^ n
    → n ≤ 56
    → size os + n < 8 * length os.buf + 8
    → Written os ((bits, n) ∷ []) (flush_bits (add_bits os bits n))
put-Done os bits n v c h g room =
    let (valid, e, f) = add_bits-stream os bits n v h (omega arith) in
    let (p, b, o) = add_bits-kept os bits n in
    let d = flush_bits-Done (add_bits os bits n) valid (rw b (omega arith)) in
    record {
      valid = d.flushed.valid;
      count_lt = d.count_lt;
      all_bits = d.flushed.same_stream ∙ e ∙ omega arith;
      all_counted = d.flushed.same_size ∙ f ∙ omega arith;
      same_overflow = d.same_overflow ∙ o;
      same_length = d.same_length ∙ ap length b;
    }

put-Full :
    (os : OutputBitstream) (bits n : ℕ)
    → IsValid os
    → os.bitcount < 8
    → bits < 2 ^ n
    → n ≤ 56
    → 8 * length os.buf + 8 ≤ size os + n
    → Full os (flush_bits (add_bits os bits n))
put-Full os bits n v c h g none_left =
    let (valid, e, f) = add_bits-stream os bits n v h (omega arith) in
    let (p, b, o) = add_bits-kept os bits n in
    let d = flush_bits-Full (add_bits os bits n) valid (rw b (omega arith)) in
    record {
      valid = d.valid;
      count_lt = d.count_lt;
      overflowed = d.overflowed;
      same_length = d.same_length ∙ ap length b;
    }

Written-cons :
    {os os' os'' : OutputBitstream} {bits n : ℕ} {fields : List Field}
    → Written os ((bits, n) ∷ []) os'
    → Written os' fields os''
    → Written os ((bits, n) ∷ fields) os''
Written-cons {os} {os'} {os''} {bits} {n} {fields} a b = record {
  valid = b.valid;
  count_lt = b.count_lt;
  all_bits =
      b.all_bits
      ∙ omega (
        arith,
        a.all_bits,
        ap (λ (t : ℕ). value fields * 2 ^ t) (a.all_counted ∙ plain (size os) n),
        ap (λ (t : ℕ). value fields * t) (two_pow_add (size os) n),
      );
  all_counted = b.all_counted ∙ omega (arith, a.all_counted);
  same_overflow = b.same_overflow ∙ a.same_overflow;
  same_length = b.same_length ∙ a.same_length;
}
  where
    plain : (x y : ℕ) → x + (y + 0) ≡ x + y
    plain x y = omega arith

-- From a valid stream with less than a byte in its buffer, fields of at most 56 bits with room
-- for all of their bits but the last 7 are all written, in order, the stream stays valid, and
-- nothing overflows.
pub put_all-Written :
    (os : OutputBitstream) (fields : List Field)
    → IsValid os
    → os.bitcount < 8
    → All IsField fields
    → size os + width fields < 8 * length os.buf + 8
    → Written os fields (put_all os fields)
put_all-Written os [] v c h room = record {
  valid = v;
  count_lt = c;
  all_bits = omega arith;
  all_counted = omega arith;
  same_overflow = refl;
  same_length = refl;
}
put_all-Written os ((bits, n) ∷ fields) v c ((h, g), hs) room =
    let a = put-Done os bits n v c h g (omega arith) in
    Written-cons a (
      put_all-Written (flush_bits (add_bits os bits n)) fields a.valid a.count_lt hs
        (omega (arith, a.all_counted, a.same_length)))

-- An overflow is never forgotten.
put_all_sticky :
    (os : OutputBitstream) (fields : List Field)
    → IsValid os
    → os.bitcount < 8
    → All IsField fields
    → os.overflow ≡ true
    → (put_all os fields).overflow ≡ true
put_all_sticky os [] v c h o = o
put_all_sticky os ((bits, n) ∷ fields) v c ((h, g), hs) o =
    elim (Bool-cases (ltb (size os + n) (8 * length os.buf + 8))) [
      | inl room ↦
          let a = put-Done os bits n v c h g (ltb→lt _ _ room) in
          put_all_sticky (flush_bits (add_bits os bits n)) fields a.valid a.count_lt hs
            (a.same_overflow ∙ o)
      | inr none_left ↦
          let a = put-Full os bits n v c h g (ltb→ge _ _ none_left) in
          put_all_sticky (flush_bits (add_bits os bits n)) fields a.valid a.count_lt hs a.overflowed
    ]

-- From such a stream, such fields without that room end with `overflow` set.
pub put_all-overflow :
    (os : OutputBitstream) (fields : List Field)
    → IsValid os
    → os.bitcount < 8
    → All IsField fields
    → 8 * length os.buf + 8 ≤ size os + width fields
    → (put_all os fields).overflow ≡ true
put_all-overflow os [] v c h none_left = absurd (omega (arith, v.pos_le))
put_all-overflow os ((bits, n) ∷ fields) v c ((h, g), hs) none_left =
    elim (Bool-cases (ltb (size os + n) (8 * length os.buf + 8))) [
      | inl room ↦
          let a = put-Done os bits n v c h g (ltb→lt _ _ room) in
          put_all-overflow (flush_bits (add_bits os bits n)) fields a.valid a.count_lt hs
            (omega (arith, a.all_counted, a.same_length))
      | inr full ↦
          let a = put-Full os bits n v c h g (ltb→ge _ _ full) in
          put_all_sticky (flush_bits (add_bits os bits n)) fields a.valid a.count_lt hs a.overflowed
    ]
