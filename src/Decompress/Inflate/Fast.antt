-- ===== src/Decompress/Inflate/Fast.antt =====
-- The fastloop of `deflate_decompress_core_impl` (src/decompress/mod.rs). The local variables
-- `entry` and `saved_bitbuf` are arguments and results of the pieces.
use zenflate.Prelude.{
  ℕ, zero, suc, ◌+◌, ◌-◌, ◌/◌, ◌%◌, ◌^◌, List, [], ◌∷◌, length, ltb, not, ◌&&◌, Bool, true, false,
  if◌then◌else◌,
}
use zenflate.Outcome.{out_of_fuel}
use zenflate.Decompress.Tables.{huffdec_literal, huffdec_exceptional, huffdec_end_of_block}
use zenflate.Decompress.Output.{write_at, fastloop_match_copy}
use zenflate.Decompress.State.{Exec, pure, lift, gets, modify, ◌>>=◌, ◌>>◌}
use zenflate.Decompress.Inflate.Items.{
  has, item_value, lookup_litlen, lookup_subtable, take_entry, fast_refill, emit, lookup_offset,
  decode_offset, put_match,
}

-- `FASTLOOP_MAX_BYTES_WRITTEN`
abbrev pub fastloop_max_bytes_written : ℕ
fastloop_max_bytes_written = 294

-- `FASTLOOP_MAX_BYTES_READ`
abbrev pub fastloop_max_bytes_read : ℕ
fastloop_max_bytes_read = 32

-- Where an iteration goes on: with an entry that is taken and the `bitbuf` before it, to the next
-- iteration with an entry, out of the loop, or out of the block.
pub data Next : Type 0 where
  item : ℕ → ℕ → Next
  again : ℕ → Next
  leave done : Next

module _ {ℓ} {R : Type ℓ} where
  -- `in_pos < in_fastloop_end && out_pos < out_fastloop_end`
  unfoldable pub has_margin : List ℕ → ℕ → Exec R Bool
  has_margin input out_limit = gets (λ s.
      ltb s.bits.in_pos (length input - fastloop_max_bytes_read)
      && ltb s.out_pos (out_limit - fastloop_max_bytes_written))

  unfoldable pub go_on : List ℕ → ℕ → ℕ → Exec R Next
  unfolding has_margin
  go_on input out_limit entry = do
    room ← has_margin input out_limit
    pure (if room then again entry else leave)

  -- The fast literal path: up to three entries of literals.
  unfoldable pub literals : List ℕ → ℕ → ℕ → ℕ → Exec R Next
  unfolding lookup_litlen take_entry emit fast_refill go_on
  literals input out_limit entry saved =
      if not (has entry huffdec_literal) then pure (item entry saved) else (do
        doubles ← gets (λ s. s.d.litlen_doubles)
        second ← lookup_litlen
        saved₂ ← take_entry second
        emit entry doubles
        elim (has second huffdec_literal) [
          | false ↦ pure (item second saved₂)
          | true ↦ do
            third ← lookup_litlen
            saved₃ ← take_entry third
            emit second doubles
            elim (has third huffdec_literal) [
              | false ↦ pure (item third saved₃)
              | true ↦ do
                emit third doubles
                next ← lookup_litlen
                fast_refill input
                go_on input out_limit next
            ]
        ])

  -- A subtable pointer or the end of the block.
  unfoldable pub exceptional : List ℕ → ℕ → ℕ → ℕ → Exec R Next
  unfolding lookup_subtable take_entry write_at lookup_litlen fast_refill go_on
  exceptional input out_limit entry saved =
      if not (has entry huffdec_exceptional)
      then pure (item entry saved)
      else if has entry huffdec_end_of_block
      then pure done
      else (do
        sub ← lookup_subtable entry
        saved' ← take_entry sub
        elim (has sub huffdec_literal) [
          | true ↦ do
            output ← gets (λ s. s.output)
            out_pos ← gets (λ s. s.out_pos)
            output' ← lift (write_at output out_pos (sub / 2 ^ 16 % 256 ∷ []))
            modify (λ s. record s { output = output'; out_pos = s.out_pos + 1 })
            next ← lookup_litlen
            fast_refill input
            go_on input out_limit next
          | false ↦ pure (if has sub huffdec_end_of_block then done else item sub saved')
        ])

  -- The match that starts with a length entry.
  unfoldable pub fast_match : List ℕ → ℕ → ℕ → ℕ → Exec R Next
  unfolding lookup_offset fast_refill decode_offset lookup_litlen put_match fastloop_match_copy
      go_on item_value
  fast_match input out_limit entry saved = do
    let len = item_value saved entry
    oentry ← lookup_offset
    left ← gets (λ s. s.bits.bitsleft)
    bits ← gets (λ s. s.d.litlen_tablebits)
    (if ltb left (28 + bits) then fast_refill input else pure tt)
    offset ← decode_offset oentry
    fast_refill input
    next ← lookup_litlen
    output ← gets (λ s. s.output)
    out_pos ← gets (λ s. s.out_pos)
    put_match len (fastloop_match_copy output out_pos (out_pos - offset) len offset)
    go_on input out_limit next

  unfoldable pub on_item : (ℕ → ℕ → Exec R Next) → Next → Exec R Next
  on_item f (item entry saved) = f entry saved
  on_item f (again entry) = pure (again entry)
  on_item f leave = pure leave
  on_item f done = pure done

  -- `'fastloop: loop`, from the entry that is loaded. The result is `block_done`. An iteration
  -- writes a byte at least, so the fuel is the output's length.
  unfoldable pub fastloop : List ℕ → ℕ → ℕ → ℕ → Exec R Bool
  unfolding take_entry literals exceptional fast_match on_item
  fastloop input out_limit zero entry = lift out_of_fuel
  fastloop input out_limit (suc fuel) entry = do
    saved ← take_entry entry
    after_literals ← literals input out_limit entry saved
    after_exceptional ← on_item (exceptional input out_limit) after_literals
    next ← on_item (fast_match input out_limit) after_exceptional
    elim next [
      | item e b ↦ pure false
      | again e ↦ fastloop input out_limit fuel e
      | leave ↦ pure false
      | done ↦ pure true
    ]

  unfoldable pub fast_phase : List ℕ → ℕ → Exec R Bool
  unfolding has_margin fast_refill lookup_litlen fastloop
  fast_phase input out_limit = do
    room ← has_margin input out_limit
    elim room [
      | false ↦ pure false
      | true ↦ do
        fast_refill input
        entry ← lookup_litlen
        n ← gets (λ s. length s.output)
        fastloop input out_limit (n + 1) entry
    ]
