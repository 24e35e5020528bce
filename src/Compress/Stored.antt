-- ===== src/Compress/Stored.antt =====
-- Level 0 of src/compress/mod.rs: streams of uncompressed blocks.
pub mod Blocks
pub mod Writes
pub mod Level0
use zenflate.Prelude.{
  ℕ, zero, suc, ◌+◌, ◌-◌, ◌*◌, ◌/◌, ◌%◌, ◌^◌, min, List, [], ◌∷◌, ◌++◌, length, take, drop, leb,
  ltb, ◌==◌, Bool, true, false, ◌&&◌, if◌then◌else◌,
}
use zenflate.Prelude.Words.{to_le_bytes}
use zenflate.Prelude.Buffer.{write}
use zenflate.Outcome.{Outcome, ok, err, panic, out_of_fuel, CompressionError, insufficient_space}

-- `[bfinal | BTYPE << 1]`, `len` and `!len` as u16, in the order they are written.
unfoldable pub block_header : Bool → ℕ → List ℕ
unfolding to_le_bytes
block_header bfinal len =
    (if bfinal then 1 else 0)
    ∷ (to_le_bytes 2 (len % 2 ^ 16) ++ to_le_bytes 2 (65535 - len % 2 ^ 16))

-- The header and the bytes of a block, written one behind the other.
unfoldable pub put_block : Bool → List ℕ → List ℕ → ℕ → List ℕ
unfolding block_header write
put_block bfinal bytes output out_pos =
    write (write output out_pos (block_header bfinal (length bytes))) (out_pos + 5) bytes

module _ {ℓ} {R : Type ℓ} where
  -- `while in_pos < input.len()`, `rest` the input from `in_pos`. A round takes a byte at least.
  -- The output comes back beside the count.
  unfoldable pub none_loop :
      ℕ → Bool → List ℕ → List ℕ → ℕ → Outcome (CompressionError R) (ℕ × List ℕ)
  unfolding put_block
  none_loop zero is_last [] output out_pos = ok (out_pos, output)
  none_loop zero is_last (b ∷ rest) output out_pos = out_of_fuel
  none_loop (suc fuel) is_last [] output out_pos = ok (out_pos, output)
  none_loop (suc fuel) is_last (b ∷ rest) output out_pos =
      let left = b ∷ rest in
      let len = min (length left) 0xffff in
      let last_block = leb (length left) 0xffff in
      let output' = put_block (is_last && last_block) (take len left) output out_pos in
      let more = none_loop fuel is_last (drop len left) output' (out_pos + 5 + len) in
      if ltb (length output) (out_pos + 5 + len) then err insufficient_space else more

  unfoldable pub deflate_compress_none_chunk :
      List ℕ → List ℕ → Bool → Outcome (CompressionError R) (ℕ × List ℕ)
  unfolding none_loop write
  deflate_compress_none_chunk [] output is_last =
      if ltb (length output) 5
      then err insufficient_space
      else ok (5, write output 0 ((if is_last then 1 else 0) ∷ 0 ∷ 0 ∷ 0xff ∷ 0xff ∷ []))
  deflate_compress_none_chunk (b ∷ input) output is_last =
      none_loop (length (b ∷ input)) is_last (b ∷ input) output 0

  -- Its loop in the source is the one above with `is_last` true.
  unfoldable pub deflate_compress_none : List ℕ → List ℕ → Outcome (CompressionError R) (ℕ × List ℕ)
  unfolding none_loop write
  deflate_compress_none [] output =
      if ltb (length output) 5
      then err insufficient_space
      else ok (5, write output 0 (1 ∷ 0 ∷ 0 ∷ 0xff ∷ 0xff ∷ []))
  deflate_compress_none (b ∷ input) output =
      none_loop (length (b ∷ input)) true (b ∷ input) output 0
