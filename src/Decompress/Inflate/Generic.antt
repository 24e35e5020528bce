-- ===== src/Decompress/Inflate/Generic.antt =====
-- The generic decode loop of `deflate_decompress_core_impl` (src/decompress/mod.rs), with a bounds
-- check for each item.
use zenflate.Prelude.{
  ℕ, zero, suc, ◌+◌, ◌-◌, ◌/◌, ◌%◌, ◌^◌, bit_or, bit_and, Option, List, [], ◌∷◌, length, leb, ltb,
  ◌==◌, true, false, if◌then◌else◌,
}
use zenflate.Outcome.{out_of_fuel, DecompressionError}
use zenflate.Decompress.Tables.{
  huffdec_literal, huffdec_subtable_pointer, huffdec_end_of_block, huffdec_double_literal,
}
use zenflate.Decompress.Output.{write_at, generic_match_copy}
use zenflate.Decompress.State.{Exec, pure, lift, gets, modify, ensure, ◌>>=◌, ◌>>◌, check, refill}
use zenflate.Decompress.Inflate.Items.{
  has, item_value, lookup_litlen, lookup_subtable, take_entry, lookup_offset, decode_offset,
  put_match,
}

-- `DECOMPRESS_STOP_INTERVAL`
abbrev pub decompress_stop_interval : ℕ
decompress_stop_interval = 16384

module _ {ℓ} {R : Type ℓ} where
  -- A literal byte, where the output has room.
  unfoldable pub put_literal : ℕ → DecompressionError R → ℕ → Exec R (Unit {0})
  unfolding write_at
  put_literal out_limit no_space byte = do
    out_pos ← gets (λ s. s.out_pos)
    ensure (ltb out_pos out_limit) no_space
    output ← gets (λ s. s.output)
    output' ← lift (write_at output out_pos (byte % 256 ∷ []))
    modify (λ s. record s { output = output'; out_pos = out_pos + 1 })

  unfoldable pub generic_literals : ℕ → DecompressionError R → ℕ → Exec R (Unit {0})
  unfolding put_literal
  generic_literals out_limit no_space entry = do
    put_literal out_limit no_space (entry / 2 ^ 16)
    (if has entry huffdec_double_literal
        then put_literal out_limit no_space (entry / 2 ^ 8)
        else pure tt)

  unfoldable pub generic_match : ℕ → DecompressionError R → ℕ → ℕ → Exec R (Unit {0})
  unfolding item_value lookup_offset decode_offset put_match generic_match_copy
  generic_match out_limit no_space entry saved = do
    let len = item_value saved entry
    out_pos ← gets (λ s. s.out_pos)
    ensure (leb len (out_limit - out_pos)) no_space
    oentry ← lookup_offset
    offset ← decode_offset oentry
    output ← gets (λ s. s.output)
    put_match len (generic_match_copy output out_pos len offset)

  -- The entry of the next item with the `bitbuf` before it, a subtable resolved. Literals are ruled
  -- out first, since a double's second byte overlaps the flags.
  unfoldable pub next_item : Exec R (ℕ × ℕ)
  unfolding lookup_litlen take_entry lookup_subtable
  next_item = do
    entry ← lookup_litlen
    saved ← take_entry entry
    elim (bit_and entry (bit_or huffdec_literal huffdec_subtable_pointer)
        == huffdec_subtable_pointer) [
          | false ↦ pure (entry, saved)
          | true ↦ do sub ← lookup_subtable entry; saved' ← take_entry sub; pure (sub, saved')
        ]

  -- The periodic stop check; the result is `next_stop_check`.
  unfoldable pub stop_check : (ℕ → Option R) → ℕ → Exec R ℕ
  unfolding check
  stop_check stop next = do
    out_pos ← gets (λ s. s.out_pos)
    elim (leb next out_pos) [
      | false ↦ pure next
      | true ↦ do check stop; pure (out_pos + decompress_stop_interval)
    ]

  -- The loop. A round that does not end it writes a byte at least.
  unfoldable pub generic_loop :
      (ℕ → Option R) → List ℕ → ℕ → DecompressionError R → ℕ → ℕ → Exec R (Unit {0})
  unfolding stop_check refill next_item generic_literals generic_match
  generic_loop stop input out_limit no_space zero next = lift out_of_fuel
  generic_loop stop input out_limit no_space (suc fuel) next = do
    next' ← stop_check stop next
    refill input
    found ← next_item
    let entry = found.0
    let saved = found.1
    elim (has entry huffdec_literal) [
      | true ↦ do
        generic_literals out_limit no_space entry
        generic_loop stop input out_limit no_space fuel next'
      | false ↦ elim (has entry huffdec_end_of_block) [
        | true ↦ pure tt
        | false ↦ do
          generic_match out_limit no_space entry saved
          generic_loop stop input out_limit no_space fuel next'
      ]
    ]

  unfoldable pub generic_phase :
      (ℕ → Option R) → List ℕ → ℕ → DecompressionError R → Exec R (Unit {0})
  unfolding check generic_loop
  generic_phase stop input out_limit no_space = do
    check stop
    out_pos ← gets (λ s. s.out_pos)
    n ← gets (λ s. length s.output)
    generic_loop stop input out_limit no_space (n + 1) (out_pos + decompress_stop_interval)
