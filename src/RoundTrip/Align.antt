-- ===== src/RoundTrip/Align.antt =====
-- The bit reader at a stored block: the three bits of its header, and the rewind to the byte
-- behind them.
use zenflate.Prelude.{
  ℕ, ◌+◌, ◌-◌, ◌*◌, ◌/◌, ◌%◌, ◌^◌, ◌≤◌, ◌<◌, bit_and, List, length, arith, ◌≡◌, refl, ap, ◌∙◌,
  ge→ltb,
}
use native.Mathlib.Decide.{dec_lt}
use zenflate.Prelude.Bits.{bit_and_mask}
use zenflate.Prelude.Arith.{mod-mod_two_pow}
use zenflate.Prelude.Words.{sub32}
use zenflate.Outcome.{ok}
use zenflate.Decompress.Refill.{BitReader}
use zenflate.Decompress.Refill.Window.{Reads}
use zenflate.Decompress.Refill.Number.{number}
use zenflate.Decompress.Inflate.Stored.{align_input}

-- The reader with an empty buffer in front of a byte.
abbrev pub at_byte : ℕ → BitReader
at_byte k = record { bitbuf = 0; bitsleft = 0; in_pos = k; overread_count = 0 }

pub at_byte-Reads : (input : List ℕ) (k : ℕ) → k ≤ length input → Reads input (8 * k) (at_byte k)
at_byte-Reads input k h = record {
  held = 0;
  bits_held = omega arith;
  held_le = omega arith;
  window = omega arith;
  at = omega arith;
  bits_le = omega arith;
  pos_le = h;
  past_end = λ _. refl;
}

-- The first byte at or behind a bit.
abbrev pub IsNextByte : ℕ → ℕ → Type 0
IsNextByte i k = (i ≤ 8 * k) × (8 * k < i + 8)

-- A full buffer in front of a bit holds the three bits from it on.
pub first_bits :
    (input : List ℕ) (i : ℕ) (b : BitReader)
    → Reads input i b
    → 56 ≤ b.bitsleft
    → b.bitbuf % 2 ^ 3 ≡ number input / 2 ^ i % 2 ^ 3
first_bits input i b r full =
    ap (λ (t : ℕ). t % 2 ^ 3) r.window
    ∙ mod-mod_two_pow (number input / 2 ^ i) r.held 3 (omega (arith, r.bits_held))

pub final_bit : (b x : ℕ) → b % 2 ^ 3 ≡ x → x ≤ 1 → bit_and b 1 ≡ x
final_bit b x e h = bit_and_mask 1 b ∙ omega arith

pub type_bits : (b x : ℕ) → b % 2 ^ 3 ≡ x → x ≤ 1 → bit_and (b / 2) 3 ≡ 0
type_bits b x e h = bit_and_mask 2 (b / 2) ∙ omega arith

rewind :
    (len i k b p o : ℕ)
    → i + b ≡ 8 * (p + o)
    → 56 ≤ b
    → b ≤ 63
    → p ≤ len
    → (p < len → o ≡ 0)
    → IsNextByte (i + 3) k
    → k ≤ len
    → (o ≤ (b - 3) / 8) × (p - ((b - 3) / 8 - o) ≡ k)
rewind len i k b p o at full h past g (from, upto) l = elim (dec_lt p len) [
  | yes lt ↦ let e = g lt in (omega arith, omega arith)
  | no ge ↦ (omega arith, omega arith)
]

-- Behind the three bits of a header, the reader is taken to the next byte.
pub align_input-at_byte {ℓ} :
    (R : Type ℓ) (input : List ℕ) (i k : ℕ) (b : BitReader)
    → Reads input i b
    → 56 ≤ b.bitsleft
    → IsNextByte (i + 3) k
    → k ≤ length input
    → align_input {R = R} b ≡ ok (at_byte k)
unfolding align_input
align_input-at_byte R input i k b r full next h =
    let small : sub32 b.bitsleft 3 ≡ b.bitsleft - 3 = omega (arith, r.bits_le) in
    let (fits, back) =
      rewind (length input) i k b.bitsleft b.in_pos b.overread_count r.at full r.bits_le r.pos_le
        r.past_end next h in
    rw (small, ge→ltb ((b.bitsleft - 3) / 8) b.overread_count fits, back) refl
