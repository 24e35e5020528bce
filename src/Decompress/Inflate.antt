-- ===== src/Decompress/Inflate.antt =====
-- `deflate_decompress_core_impl` of src/decompress/mod.rs: the loop over the blocks, and the check
-- that no implicit zero byte behind the input was consumed. The dispatch to an AVX-512 build of the
-- same code is left out.
pub mod Dynamic
pub mod Stored
pub mod Static
pub mod Items
pub mod Fast
pub mod Generic
use zenflate.Prelude.{
  ℕ, zero, suc, ◌+◌, ◌-◌, ◌*◌, ◌/◌, ◌%◌, ◌^◌, bit_and, Option, none, some, List, [], length, leb,
  ltb, ◌==◌, not, ◌||◌, Bool, true, false, if◌then◌else◌,
}
use zenflate.Outcome.{
  Outcome, ok, err, panic, out_of_fuel, DecompressionError, bad_data, insufficient_space,
  output_limit_exceeded,
}
use zenflate.Outcome
use zenflate.Decompress.Refill.{BitReader, empty}
use zenflate.Decompress.State.{
  Decompressor, Run, Exec, pure, fail, lift, gets, modify, continue, ensure, ◌>>=◌, ◌>>◌, check,
  refill, reset_stream_state,
}
use zenflate.Decompress.Inflate.Dynamic.{dynamic_block}
use zenflate.Decompress.Inflate.Stored.{stored_block}
use zenflate.Decompress.Inflate.Static.{static_block}
use zenflate.Decompress.Inflate.Fast.{fast_phase}
use zenflate.Decompress.Inflate.Generic.{generic_phase}

module _ {ℓ} {R : Type ℓ} where
  -- `(out_limit, no_space)`
  unfoldable pub output_limit : Option ℕ → ℕ → ℕ × DecompressionError R
  output_limit none n = (n, insufficient_space)
  output_limit (some max) n =
      if ltb max n then (max, output_limit_exceeded) else (n, insufficient_space)

  -- The items of a Huffman block.
  unfoldable pub decode_items :
      (ℕ → Option R) → List ℕ → ℕ → DecompressionError R → Exec R (Unit {0})
  unfolding fast_phase generic_phase
  decode_items stop input out_limit no_space = do
    block_done ← fast_phase input out_limit
    (if block_done then pure tt else generic_phase stop input out_limit no_space)

  -- One block; the result is `is_final`.
  unfoldable pub block : (ℕ → Option R) → List ℕ → ℕ → DecompressionError R → Exec R Bool
  unfolding check refill dynamic_block stored_block static_block decode_items
  block stop input out_limit no_space = do
    check stop
    refill input
    b ← gets (λ s. s.bits.bitbuf)
    let is_final = not (bit_and b 1 == 0)
    let block_type = bit_and (b / 2) 3
    (if block_type == 2
        then (do dynamic_block input; decode_items stop input out_limit no_space)
        else if block_type == 0
        then stored_block input out_limit no_space
        else if block_type == 1
        then (do static_block input; decode_items stop input out_limit no_space)
        else fail bad_data)
    pure is_final

  -- `loop`. A block takes three bits at least, and a refill gives eight virtual bytes at most, so
  -- `blocks_fuel` rounds are enough.
  unfoldable pub blocks : (ℕ → Option R) → List ℕ → ℕ → DecompressionError R → ℕ → Exec R (Unit {0})
  unfolding block
  blocks stop input out_limit no_space zero = lift out_of_fuel
  blocks stop input out_limit no_space (suc fuel) = do
    is_final ← block stop input out_limit no_space
    elim is_final [ true ↦ pure tt | false ↦ blocks stop input out_limit no_space fuel ]

  -- The bytes taken of the input and put into the output.
  unfoldable pub finish_core : BitReader → ℕ → Outcome (DecompressionError R) (ℕ × ℕ)
  finish_core b out_pos =
      if ltb (b.bitsleft / 8) b.overread_count
      then err bad_data
      else ok (b.in_pos - (b.bitsleft / 8 - b.overread_count), out_pos)

  unfoldable pub deflate_decompress_core : (ℕ → Option R) → List ℕ → Exec R (ℕ × ℕ)
  unfolding output_limit blocks finish_core
  deflate_decompress_core stop input s =
      let limit = output_limit s.d.max_output_size (length s.output) in
      (do
        blocks stop input limit.0 limit.1 (8 * length input + 65)
        b ← gets (λ t. t.bits)
        out_pos ← gets (λ t. t.out_pos)
        lift (finish_core b out_pos))
        s

abbrev pub start : Decompressor → List ℕ → Run
start d output = record { d = d; bits = empty; output = output; out_pos = 0; checks = 0 }
