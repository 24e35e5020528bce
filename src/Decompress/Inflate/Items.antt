-- ===== src/Decompress/Inflate/Items.antt =====
-- What the two decode loops of `deflate_decompress_core_impl` (src/decompress/mod.rs) share: table
-- lookups, the value of a length or an offset, and the literals and copies on the state.
use zenflate.Prelude.{
  ℕ, ◌+◌, ◌/◌, ◌%◌, ◌^◌, bit_and, List, length, leb, ltb, ◌==◌, not, ◌||◌, Bool, true, false,
  if◌then◌else◌,
}
use zenflate.Prelude.Words.{shr64}
use zenflate.Outcome.{Outcome, ok, panic, DecompressionError, bad_data, read}
use zenflate.Decompress.Refill.{bitmask, extract_varbits, extract_varbits8, refill_bits_fast}
use zenflate.Decompress.Tables.{offset_tablebits, huffdec_exceptional}
use zenflate.Decompress.Output.{put_lits}
use zenflate.Decompress.State.{Run, Exec, pure, lift, gets, modify, ensure, ◌>>=◌, ◌>>◌, skip_bits}

-- Whether an entry has a flag.
abbrev pub has : ℕ → ℕ → Bool
has entry flag = not (bit_and entry flag == 0)

-- `(entry >> 16) + (extract_varbits8(saved, entry) >> (entry >> 8) as u8)`
unfoldable pub item_value : ℕ → ℕ → ℕ
unfolding extract_varbits8
item_value saved entry = entry / 2 ^ 16 + shr64 (extract_varbits8 saved entry) (entry / 2 ^ 8 % 256)

-- `(entry >> 16) + extract_varbits(bitbuf, (entry >> 8) & 0x3F)`
unfoldable pub subtable_index : ℕ → ℕ → ℕ
unfolding extract_varbits
subtable_index bitbuf entry = entry / 2 ^ 16 + extract_varbits bitbuf (bit_and (entry / 2 ^ 8) 0x3f)

unfoldable pub add_literals : Run → List ℕ × ℕ → Run
add_literals s (output, n) = record s { output = output; out_pos = s.out_pos + n }

module _ {ℓ} {R : Type ℓ} where
  unfoldable pub lookup_litlen : Exec R ℕ
  unfolding bitmask read
  lookup_litlen = do
    d ← gets (λ s. s.d)
    b ← gets (λ s. s.bits.bitbuf)
    lift (read d.litlen_decode_table (bit_and b (bitmask d.litlen_tablebits)))

  unfoldable pub lookup_subtable : ℕ → Exec R ℕ
  unfolding subtable_index read
  lookup_subtable entry = do
    d ← gets (λ s. s.d)
    b ← gets (λ s. s.bits.bitbuf)
    lift (read d.litlen_decode_table (subtable_index b entry))

  -- `saved_bitbuf = bitbuf; bitbuf >>= entry & 0xFF; bitsleft -= entry & 0xFF`
  unfoldable pub take_entry : ℕ → Exec R ℕ
  unfolding skip_bits
  take_entry entry = do
    saved ← gets (λ s. s.bits.bitbuf)
    skip_bits (bit_and entry 0xff)
    pure saved

  -- `refill_bits_fast`, whose load panics outside of the input.
  unfoldable pub fast_refill : List ℕ → Exec R (Unit {0})
  unfolding refill_bits_fast
  fast_refill input s =
      if leb (s.bits.in_pos + 8) (length input)
      then (ok tt, record s { bits = refill_bits_fast s.bits input })
      else (panic, s)

  -- `out_pos += put_lits(output, out_pos, entry, doubles)`
  unfoldable pub emit : ℕ → Bool → Exec R (Unit {0})
  unfolding put_lits add_literals
  emit entry doubles = do
    output ← gets (λ s. s.output)
    out_pos ← gets (λ s. s.out_pos)
    r ← lift (put_lits output out_pos entry doubles)
    modify (λ s. add_literals s r)

  unfoldable pub lookup_offset : Exec R ℕ
  unfolding bitmask read
  lookup_offset = do
    table ← gets (λ s. s.d.offset_decode_table)
    b ← gets (λ s. s.bits.bitbuf)
    lift (read table (bit_and b (bitmask offset_tablebits)))

  -- The offset of a match, from the entry of the main table.
  unfoldable pub decode_offset : ℕ → Exec R ℕ
  unfolding skip_bits subtable_index read take_entry item_value
  decode_offset first = do
    entry ← elim (has first huffdec_exceptional) [
      | false ↦ pure first
      | true ↦ do
        skip_bits offset_tablebits
        table ← gets (λ s. s.d.offset_decode_table)
        b ← gets (λ s. s.bits.bitbuf)
        lift (read table (subtable_index b first))
    ]
    saved ← take_entry entry
    let offset = item_value saved entry
    out_pos ← gets (λ s. s.out_pos)
    ensure (not (offset == 0 || ltb out_pos offset)) bad_data
    pure offset

  -- `out_pos += length` behind a copy into the output
  unfoldable pub put_match : ℕ → Outcome (DecompressionError R) (List ℕ) → Exec R (Unit {0})
  put_match len copied = do
    output ← lift copied
    modify (λ s. record s { output = output; out_pos = s.out_pos + len })
