-- ===== src/Bitstream/Groups.antt =====
-- Bit fields in groups: `OutputBitstream` of src/compress/bitstream.rs takes several fields before a
-- flush.
use zenflate.Prelude.{
  ℕ, ◌+◌, ◌*◌, ◌^◌, ◌≤◌, ◌<◌, List, [], ◌∷◌, ◌++◌, length, append_assoc, arith, ◌≡◌, refl, sym, ap,
  ◌∙◌, All,
}
use zenflate.Prelude.Arith.{two_pow_add}
use zenflate.Bitstream.{OutputBitstream, add_bits, flush_bits}
use zenflate.Bitstream.Value.{IsValid, stream, size, add_bits-stream}
use zenflate.Bitstream.Flush.{flush_bits-Done}
use zenflate.Bitstream.Fields.{Field, IsField, value, width, Written, add_bits-kept}

abbrev pub add_all : OutputBitstream → List Field → OutputBitstream
add_all os [] = os
add_all os ((bits, n) ∷ fields) = add_all (add_bits os bits n) fields

abbrev pub put_groups : OutputBitstream → List (List Field) → OutputBitstream
put_groups os [] = os
put_groups os (group ∷ groups) = put_groups (flush_bits (add_all os group)) groups

abbrev pub flat : List (List Field) → List Field
flat [] = []
flat (group ∷ groups) = group ++ flat groups

-- The fields fit their bits, and the bits fit beside the 7 that a flush may leave.
abbrev pub IsGroup : List Field → Type 0
IsGroup group = All IsField group × (width group ≤ 56)

record Added (os : OutputBitstream) (fields : List Field) (os' : OutputBitstream) : Type 0 where
  pub valid : IsValid os'
  pub all_bits : stream os' ≡ stream os + value fields * 2 ^ size os
  pub all_counted : size os' ≡ size os + width fields
  pub same_pos : os'.pos ≡ os.pos
  pub same_buf : os'.buf ≡ os.buf
  pub same_overflow : os'.overflow ≡ os.overflow

chain : (s t z v b n : ℕ) → t ≡ s + b * 2 ^ z → t + v * 2 ^ (z + n) ≡ s + (b + v * 2 ^ n) * 2 ^ z
chain s t z v b n e =
    omega (arith, e, ap (λ (i : ℕ). v * i) (two_pow_add z n), spread b v (2 ^ z) (2 ^ n))
  where
    spread : (x y p q : ℕ) → (x + y * q) * p ≡ x * p + y * (p * q)
    spread x y p q = grind arith

add_all-Added :
    (os : OutputBitstream) (fields : List Field)
    → IsValid os
    → All IsField fields
    → os.bitcount + width fields ≤ 63
    → Added os fields (add_all os fields)
add_all-Added os [] v h room = record {
  valid = v;
  all_bits = omega arith;
  all_counted = omega arith;
  same_pos = refl;
  same_buf = refl;
  same_overflow = refl;
}
add_all-Added os ((bits, n) ∷ fields) v ((h, g), hs) room =
    let (valid, e, f) = add_bits-stream os bits n v h (omega (arith, room)) in
    let (p, b, o) = add_bits-kept os bits n in
    let one = add_bits os bits n in
    let rest = add_all-Added one fields valid hs (omega (arith, room, f, p)) in
    record {
      valid = rest.valid;
      all_bits =
          rest.all_bits
          ∙ ap (λ (t : ℕ). stream one + value fields * 2 ^ t) f
          ∙ chain (stream os) (stream one) (size os) (value fields) bits n e;
      all_counted = omega (arith, rest.all_counted, f);
      same_pos = rest.same_pos ∙ p;
      same_buf = rest.same_buf ∙ b;
      same_overflow = rest.same_overflow ∙ o;
    }

group-Written :
    (os : OutputBitstream) (group : List Field)
    → IsValid os
    → os.bitcount < 8
    → IsGroup group
    → size os + width group < 8 * length os.buf + 8
    → Written os group (flush_bits (add_all os group))
group-Written os group v c (h, g) room =
    let a = add_all-Added os group v h (omega (arith, c, g)) in
    let out = add_all os group in
    let same : length out.buf ≡ length os.buf = ap length a.same_buf in
    let d = flush_bits-Done out a.valid (omega (arith, room, a.all_counted, a.same_pos, same)) in
    record {
      valid = d.flushed.valid;
      count_lt = d.count_lt;
      all_bits = d.flushed.same_stream ∙ a.all_bits;
      all_counted = d.flushed.same_size ∙ a.all_counted;
      same_overflow = d.same_overflow ∙ a.same_overflow;
      same_length = d.same_length ∙ same;
    }

value-append : (xs ys : List Field) → value (xs ++ ys) ≡ value xs + value ys * 2 ^ width xs
value-append [] ys = omega arith
value-append ((b, n) ∷ xs) ys =
    let e = value-append xs ys in
    omega (
      arith,
      ap (λ (t : ℕ). t * 2 ^ n) e,
      ap (λ (t : ℕ). value ys * t) (two_pow_add n (width xs)),
      spread (value xs) (value ys) (2 ^ width xs) (2 ^ n),
    )
  where
    spread : (x y p q : ℕ) → (x + y * p) * q ≡ x * q + y * (q * p)
    spread x y p q = grind arith

pub width-append : (xs ys : List Field) → width (xs ++ ys) ≡ width xs + width ys
width-append [] ys = omega arith
width-append ((b, n) ∷ xs) ys = omega (arith, width-append xs ys)

Written-append :
    {os os' os'' : OutputBitstream} {xs ys : List Field}
    → Written os xs os'
    → Written os' ys os''
    → Written os (xs ++ ys) os''
Written-append {os} {os'} {os''} {xs} {ys} a b = record {
  valid = b.valid;
  count_lt = b.count_lt;
  all_bits =
      b.all_bits
      ∙ ap (λ (t : ℕ). stream os' + value ys * 2 ^ t) a.all_counted
      ∙ chain (stream os) (stream os') (size os) (value ys) (value xs) (width xs) a.all_bits
      ∙ ap (λ (t : ℕ). stream os + t * 2 ^ size os) (sym (value-append xs ys));
  all_counted = omega (arith, b.all_counted, a.all_counted, width-append xs ys);
  same_overflow = b.same_overflow ∙ a.same_overflow;
  same_length = b.same_length ∙ a.same_length;
}

-- Groups that have room are written, in order.
pub put_groups-Written :
    (os : OutputBitstream) (groups : List (List Field))
    → IsValid os
    → os.bitcount < 8
    → All IsGroup groups
    → size os + width (flat groups) < 8 * length os.buf + 8
    → Written os (flat groups) (put_groups os groups)
put_groups-Written os [] v c h room = record {
  valid = v;
  count_lt = c;
  all_bits = omega arith;
  all_counted = omega arith;
  same_overflow = refl;
  same_length = refl;
}
put_groups-Written os (group ∷ groups) v c (h, hs) room =
    let parts = width-append group (flat groups) in
    let one = group-Written os group v c h (omega (arith, room, parts)) in
    let next = flush_bits (add_all os group) in
    Written-append {os = os} {os' = next} {os'' = put_groups next groups} {xs = group}
      {ys = flat groups} one
      (put_groups-Written next groups one.valid one.count_lt hs
        (omega (arith, room, parts, one.all_counted, one.same_length)))

pub put_groups-append :
    (os : OutputBitstream) (xs ys : List (List Field))
    → put_groups os (xs ++ ys) ≡ put_groups (put_groups os xs) ys
put_groups-append os [] ys = refl
put_groups-append os (x ∷ xs) ys = put_groups-append (flush_bits (add_all os x)) xs ys

pub flat-append : (xs ys : List (List Field)) → flat (xs ++ ys) ≡ flat xs ++ flat ys
flat-append [] ys = refl
flat-append (x ∷ xs) ys =
    ap (λ t. x ++ t) (flat-append xs ys) ∙ sym (append_assoc x (flat xs) (flat ys))
