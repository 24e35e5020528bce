-- ===== src/RoundTrip/Block.antt =====
-- The decoder of src/decompress/mod.rs on one stored block.
use zenflate.Prelude.{
  ℕ, ◌+◌, ◌-◌, ◌/◌, ◌%◌, ◌^◌, ◌≤◌, bit_and, Option, none, some, List, ◌++◌, length, take, drop,
  get_or, All, ◌==◌, not, Bool, true, false, arith, ◌≡◌, refl, ap, ◌∙◌, sym, le→leb, length-append,
  length-drop, take-append, drop-drop, get_or-drop, if◌then◌else◌, ==_iff,
}
use zenflate.Prelude.Buffer.{write}
use zenflate.Prelude.Words.{IsByte, to_le_bytes}
use zenflate.Outcome.{Outcome, ok, err, panic, out_of_fuel, DecompressionError, stopped}
use zenflate.Decompress.Refill.{BitReader, refill_bits}
use zenflate.Decompress.Refill.Window.{Reads, refill_bits-Reads}
use zenflate.Decompress.Output.{write_at}
use zenflate.Decompress.State.{Run, check, refill}
use zenflate.Decompress.Inflate.{block}
use zenflate.Decompress.Inflate.Stored.{load_u16_le, stored_block}
use zenflate.Compress.Stored.Level0.{IsChunk}
use zenflate.Decompress.Refill.Number.{number}
use zenflate.RoundTrip.Align.{
  at_byte, IsNextByte, first_bits, final_bit, type_bits, align_input-at_byte,
}

abbrev pub At : List ℕ → ℕ → List ℕ → Type 0
At input k bytes = drop k input ≡ bytes

byte_of :
    (input bytes : List ℕ) (k i j : ℕ)
    → At input k bytes
    → j ≡ k + i
    → get_or input j 0 ≡ get_or bytes i 0
byte_of input bytes k i j h e =
    ap (λ (t : ℕ). get_or input t 0) e ∙ sym (get_or-drop k i input 0) ∙ ap (λ t. get_or t i 0) h

-- The length of a stored block and its complement, as two u16.
abbrev pub lens : ℕ → List ℕ
lens n = to_le_bytes 2 n ++ to_le_bytes 2 (65535 - n)

pub length-lens : (n : ℕ) → length (lens n) ≡ 4
unfolding to_le_bytes
length-lens n = refl

lens_of :
    (input rest : List ℕ) (k n : ℕ)
    → At input k (lens n ++ rest)
    → n ≤ 0xffff
    → (load_u16_le input k ≡ n) × (load_u16_le input (k + 2) ≡ 65535 - n)
unfolding load_u16_le to_le_bytes
lens_of input rest k n h le =
    let bytes = lens n ++ rest in
    let b0 = byte_of input bytes k 0 k h (omega arith) in
    let b1 = byte_of input bytes k 1 (k + 1) h refl in
    let b2 = byte_of input bytes k 2 (k + 2) h refl in
    let b3 = byte_of input bytes k 3 (k + 2 + 1) h (omega arith) in
    (omega (arith, b0, b1), omega (arith, b2, b3))

unfoldable pub flag : Bool → ℕ
flag b = if b then 1 else 0

flag-le : (b : Bool) → flag b ≤ 1
unfolding flag
flag-le true = omega arith
flag-le false = omega arith

-- A stored block of the bytes `c`, with the final bit `b`, from the bit `i` of the input on: two bits
-- of its type behind the final bit, padding of any bits up to the byte `k`, then the length, its
-- complement and the bytes, whatever stands behind them.
pub record IsStoredBlock (input : List ℕ) (i k : ℕ) (b : Bool) (c : List ℕ) : Type 0 where
  pub header : number input / 2 ^ i % 2 ^ 3 ≡ flag b
  pub next_byte : IsNextByte (i + 3) k
  pub small : IsChunk c
  pub rest : List ℕ
  pub bytes : At input k (lens (length c) ++ (c ++ rest))

-- The block ends in the input.
pub IsStoredBlock-end :
    (input : List ℕ) (i k : ℕ) (b : Bool) (c : List ℕ)
    → IsStoredBlock input i k b c
    → k + 4 + length c ≤ length input
IsStoredBlock-end input i k b c v = omega (
  arith,
  length-drop k input,
  ap length v.bytes,
  length-append (lens (length c)) (c ++ v.rest),
  length-append c v.rest,
  length-lens (length c),
)

bytes_of :
    (input rest c : List ℕ) (k : ℕ)
    → At input k (lens (length c) ++ (c ++ rest))
    → take (length c) (drop (k + 4) input) ≡ c
unfolding to_le_bytes
bytes_of input rest c k h =
    ap (take (length c)) (sym (drop-drop k 4 input) ∙ ap (drop 4) h) ∙ take-append c rest

write_at-write {ℓ} :
    (R : Type ℓ) (output bytes : List ℕ) (pos : ℕ)
    → pos + length bytes ≤ length output
    → write_at {E = R} output pos bytes ≡ ok (write output pos bytes)
unfolding write_at
write_at-write R output bytes pos h = rw (le→leb (pos + length bytes) (length output) h) refl

-- What a stored block of `c` makes of a state, where `k` is the first byte of its length.
abbrev pub stored : Run → ℕ → List ℕ → Run
stored s k c = record s {
  bits = at_byte (k + 4 + length c);
  output = write s.output s.out_pos c;
  out_pos = s.out_pos + length c;
}

stored_block-stored {ℓ} :
    (R : Type ℓ) (input c : List ℕ) (limit : ℕ) (e : DecompressionError R) (s : Run) (i k : ℕ)
    (b : Bool)
    → Reads input i s.bits
    → 56 ≤ s.bits.bitsleft
    → IsStoredBlock input i k b c
    → s.out_pos + length c ≤ limit
    → limit ≤ length s.output
    → stored_block input limit e s ≡ (ok tt, stored s k c)
unfolding stored_block
stored_block-stored R input c limit e s i k b r full v room in_range =
    let total = IsStoredBlock-end input i k b c v in
    let (len, nlen) = lens_of input (c ++ v.rest) k (length c) v.bytes v.small in
    rw
      (
        align_input-at_byte R input i k s.bits r full v.next_byte (omega (arith, total)),
        le→leb (k + 4) (length input) (omega (arith, total)),
        len,
        nlen,
        (==_iff (length c) (65535 - (65535 - length c))).1 (omega (arith, v.small)),
        le→leb (length c) (limit - s.out_pos) (omega (arith, room)),
        le→leb (length c) (length input - (k + 4)) (omega (arith, total)),
        bytes_of input v.rest c k v.bytes,
        write_at-write (DecompressionError R) s.output c s.out_pos (omega (arith, room, in_range)),
      )
      refl

is_final_of : (b : Bool) (x : ℕ) → x ≡ flag b → not (x == 0) ≡ b
unfolding flag
is_final_of true x e = ap (λ (t : ℕ). not (t == 0)) e
is_final_of false x e = ap (λ (t : ℕ). not (t == 0)) e

-- The bits of the block's header.
header_of :
    (input c : List ℕ) (i k : ℕ) (b : Bool) (r : BitReader)
    → Reads input i r
    → 56 ≤ r.bitsleft
    → IsStoredBlock input i k b c
    → (not (bit_and r.bitbuf 1 == 0) ≡ b) × (bit_and (r.bitbuf / 2) 3 ≡ 0)
header_of input c i k b r reads full v =
    let bits = first_bits input i r reads full ∙ v.header in
    (
      is_final_of b (bit_and r.bitbuf 1) (final_bit r.bitbuf (flag b) bits (flag-le b)),
      type_bits r.bitbuf (flag b) bits (flag-le b),
    )

abbrev pub checked : Run → Run
checked s = record s { checks = s.checks + 1 }

check-none {ℓ} :
    (R : Type ℓ) (stop : ℕ → Option R) (s : Run)
    → stop s.checks ≡ none
    → check stop s ≡ (ok tt, checked s)
unfolding check
check-none R stop s h =
    ap
      (λ (o : Option R). elim o as (λ x. Outcome (DecompressionError R) (Unit {0}) × Run) [
        | none ↦ (ok tt, checked s)
        | some reason ↦ (err (stopped reason), checked s)
      ])
      h

refill-ok {ℓ} :
    (R : Type ℓ) (input : List ℕ) (s : Run) (b : BitReader)
    → refill_bits {R = R} s.bits input ≡ ok b
    → refill {R = R} input s ≡ (ok tt, record s { bits = b })
unfolding refill
refill-ok R input s b h =
    ap
      (λ (o : Outcome (DecompressionError R) BitReader).
        elim o as (λ x. Outcome (DecompressionError R) (Unit {0}) × Run) [
          | ok bits ↦ (ok tt, record s { bits = bits })
          | err e ↦ (err e, s)
          | panic ↦ (panic, s)
          | out_of_fuel ↦ (out_of_fuel, s)
        ])
      h

-- A stored block in front of the reader, at any bit and with any padding, in an input of bytes, with
-- room for it below the limit and no stop, is decoded to its bytes: they stand behind the output so
-- far, and the reader stands at the byte behind the block.
pub block-stored {ℓ} :
    (R : Type ℓ) (stop : ℕ → Option R) (input c : List ℕ) (limit : ℕ) (e : DecompressionError R)
    (s : Run) (i k : ℕ) (b : Bool)
    → stop s.checks ≡ none
    → All IsByte input
    → Reads input i s.bits
    → IsStoredBlock input i k b c
    → s.out_pos + length c ≤ limit
    → limit ≤ length s.output
    → block stop input limit e s ≡ (ok b, stored (checked s) k c)
unfolding block
block-stored R stop input c limit e s i k b go hb r v room in_range =
    let total = IsStoredBlock-end input i k b c v in
    let (from, upto) = v.next_byte in
    let (bits, eq, reads, full) =
      refill_bits-Reads R input i s.bits hb r (omega (arith, total, from)) in
    let t : Run = record s { checks = s.checks + 1; bits = bits } in
    let (final, kind) = header_of input c i k b bits reads full v in
    rw
      (
        check-none R stop s go,
        refill-ok R input (checked s) bits eq,
        kind,
        stored_block-stored R input c limit e t i k b reads full v room in_range,
      )
      (ap (λ (x : Bool). (ok x, stored (checked s) k c)) final)
