-- ===== src/Decompress/Refill.antt =====
-- `refill_bits` and `refill_bits_fast` of src/decompress/mod.rs, and the bit helpers. `bitbuf` is a
-- u64 and `bitsleft` a u32.
pub mod Number
pub mod Window
use zenflate.Prelude.{
  ℕ, zero, suc, ◌+◌, ◌-◌, ◌*◌, ◌/◌, ◌%◌, ◌^◌, bit_and, bit_or, List, length, take, drop, get_or,
  leb, ltb, if◌then◌else◌,
}
use zenflate.Prelude.Words.{add32, sub32, shl64, shr64, from_le_bytes}
use zenflate.Outcome.{Outcome, ok, err, DecompressionError, bad_data}

pub record BitReader : Type 0 where
  pub bitbuf : ℕ
  pub bitsleft : ℕ
  pub in_pos : ℕ
  pub overread_count : ℕ

abbrev pub empty : BitReader
empty = record { bitbuf = 0; bitsleft = 0; in_pos = 0; overread_count = 0 }

-- `CONSUMABLE_NBITS`
abbrev pub consumable_nbits : ℕ
consumable_nbits = 56

unfoldable pub bitmask : ℕ → ℕ
bitmask n = 2 ^ (n % 64) - 1

unfoldable pub extract_varbits : ℕ → ℕ → ℕ
unfolding bitmask
extract_varbits word count = bit_and word (bitmask count)

unfoldable pub extract_varbits8 : ℕ → ℕ → ℕ
unfolding bitmask
extract_varbits8 word entry = bit_and word (bitmask (bit_and entry 0xff))

-- `crate::fast_bytes::load_u64_le`, within bounds
unfoldable pub load_u64_le : List ℕ → ℕ → ℕ
load_u64_le bytes off = from_le_bytes (take 8 (drop off bytes))

unfoldable pub refill_bits_fast : BitReader → List ℕ → BitReader
unfolding load_u64_le from_le_bytes
refill_bits_fast s input = record s {
  bitbuf = bit_or s.bitbuf (shl64 (load_u64_le input s.in_pos) s.bitsleft);
  in_pos = s.in_pos + (7 - bit_and (s.bitsleft / 8) 7);
  bitsleft = bit_or s.bitsleft 56;
}

-- A round of the byte loop: a byte of input, or a virtual zero byte behind its end.
unfoldable pub load_byte : BitReader → List ℕ → BitReader
load_byte s input =
    if ltb s.in_pos (length input)
    then record s {
      bitbuf = bit_or s.bitbuf (shl64 (get_or input s.in_pos 0) s.bitsleft);
      in_pos = s.in_pos + 1;
      bitsleft = add32 s.bitsleft 8;
    }
    else record s { overread_count = s.overread_count + 1; bitsleft = add32 s.bitsleft 8 }

-- `while *bitsleft < CONSUMABLE_NBITS`. A round adds 8 bits, so 7 rounds end it.
unfoldable pub refill_loop {ℓ} :
    {R : Type ℓ} → ℕ → BitReader → List ℕ → Outcome (DecompressionError R) BitReader
unfolding load_byte
refill_loop zero s input = ok s
refill_loop (suc fuel) s input =
    let s' = load_byte s input in
    let more = refill_loop fuel s' input in
    if ltb s.bitsleft consumable_nbits
    then (if ltb 8 s'.overread_count then err bad_data else more)
    else ok s

unfoldable pub refill_bits {ℓ} :
    {R : Type ℓ} → BitReader → List ℕ → Outcome (DecompressionError R) BitReader
unfolding refill_bits_fast refill_loop
refill_bits s input =
    if leb (s.in_pos + 8) (length input)
    then ok (refill_bits_fast s input)
    else refill_loop 7 s input

-- `bitbuf >>= n; bitsleft -= n`
unfoldable pub consume : BitReader → ℕ → BitReader
consume s n = record s { bitbuf = shr64 s.bitbuf n; bitsleft = sub32 s.bitsleft n }
