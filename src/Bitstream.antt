-- ===== src/Bitstream.antt =====
-- src/compress/bitstream.rs: `OutputBitstream`, the compressor's output, method by method. `bitbuf`
-- is a u64 and `bitcount` a u32; `buf` has the length of the caller's slice throughout.
pub mod Value
pub mod Flush
pub mod Fields
pub mod Groups
use zenflate.Prelude.{
  ℕ, zero, suc, ◌+◌, ◌-◌, ◌/◌, ◌%◌, bit_and, bit_or, Bool, true, false, List, [], ◌∷◌, length, leb,
  ltb, if◌then◌else◌,
}
use zenflate.Prelude.Words.{add32, sub32, shl64, shr64, to_le_bytes}
use zenflate.Prelude.Buffer.{write}

-- `BITBUF_NBITS`
abbrev pub bitbuf_nbits : ℕ
bitbuf_nbits = 63

pub can_buffer : ℕ → Bool
can_buffer n = leb (7 + n) bitbuf_nbits

pub record OutputBitstream : Type 0 where
  pub bitbuf : ℕ
  pub bitcount : ℕ
  pub pos : ℕ
  pub buf : List ℕ
  pub overflow : Bool

pub new : List ℕ → OutputBitstream
new buf = record { bitbuf = 0; bitcount = 0; pos = 0; buf = buf; overflow = false }

pub add_bits : OutputBitstream → ℕ → ℕ → OutputBitstream
add_bits os bits n = record os {
  bitbuf = bit_or os.bitbuf (shl64 bits os.bitcount);
  bitcount = add32 os.bitcount n;
}

-- The round of the byte loop that has room, and the one that has none and ends it.
pub flush_byte : OutputBitstream → OutputBitstream
flush_byte os = record os {
  buf = write os.buf os.pos ((os.bitbuf % 256) ∷ []);
  pos = os.pos + 1;
  bitcount = sub32 os.bitcount 8;
  bitbuf = shr64 os.bitbuf 8;
}

pub drop_bits : OutputBitstream → OutputBitstream
drop_bits os = record os { overflow = true; bitbuf = 0; bitcount = 0 }

-- `while self.bitcount >= 8`: a round takes 8 off the count, so `bitcount` rounds are enough.
pub flush_loop : ℕ → OutputBitstream → OutputBitstream
flush_loop zero os = os
flush_loop (suc fuel) os =
    let next = flush_loop fuel (flush_byte os) in
    if leb 8 os.bitcount then (if ltb os.pos (length os.buf) then next else drop_bits os) else os

pub flush_word : OutputBitstream → OutputBitstream
flush_word os = record os {
  buf = write os.buf os.pos (to_le_bytes 8 os.bitbuf);
  pos = os.pos + os.bitcount / 8;
  bitbuf = shr64 os.bitbuf (bit_and os.bitcount 0xfffffff8);
  bitcount = bit_and os.bitcount 7;
}

pub flush_bits : OutputBitstream → OutputBitstream
unfolding flush_word flush_loop flush_byte drop_bits
flush_bits os =
    if leb (os.pos + 8) (length os.buf) then flush_word os else flush_loop os.bitcount os

pub write_bytes : OutputBitstream → List ℕ → OutputBitstream
write_bytes os bytes =
    if leb (os.pos + length bytes) (length os.buf)
    then record os { buf = write os.buf os.pos bytes; pos = os.pos + length bytes }
    else record os { overflow = true }

pub write_byte : OutputBitstream → ℕ → OutputBitstream
write_byte os b =
    if ltb os.pos (length os.buf)
    then record os { buf = write os.buf os.pos (b ∷ []); pos = os.pos + 1 }
    else record os { overflow = true }

pub write_le16 : OutputBitstream → ℕ → OutputBitstream
write_le16 os v =
    if leb (os.pos + 2) (length os.buf)
    then record os { buf = write os.buf os.pos (to_le_bytes 2 v); pos = os.pos + 2 }
    else record os { overflow = true }

pub write_le32 : OutputBitstream → ℕ → OutputBitstream
write_le32 os v =
    if leb (os.pos + 4) (length os.buf)
    then record os { buf = write os.buf os.pos (to_le_bytes 4 v); pos = os.pos + 4 }
    else record os { overflow = true }

pub remaining : OutputBitstream → ℕ
remaining os = length os.buf - os.pos

pub fast_end : OutputBitstream → ℕ
fast_end os = length os.buf - 7
