-- ===== src/Decompress/Output.antt =====
-- Writing to the output slice: literals and match copies of src/decompress/mod.rs. A copy that
-- leaves the slice panics.
pub mod Copy
pub mod Fast
pub mod Generic
use zenflate.Prelude.{
  ℕ, zero, suc, ◌+◌, ◌-◌, ◌/◌, ◌%◌, ◌^◌, min, bit_and, Bool, true, false, List, [], ◌∷◌, length,
  take, drop, replicate, leb, ltb, ◌==◌, not, if◌then◌else◌,
}
use zenflate.Prelude.Buffer.{write}
use zenflate.Outcome.{Outcome, ok, panic, out_of_fuel, read, ◌>>=◌}

module _ {ℓ} {E : Type ℓ} where
  -- `output[pos..pos + bytes.len()].copy_from_slice(bytes)`
  unfoldable pub write_at : List ℕ → ℕ → List ℕ → Outcome E (List ℕ)
  unfolding write
  write_at output pos bytes =
      if leb (pos + length bytes) (length output) then ok (write output pos bytes) else panic

  -- `output.copy_within(src..src + n, dst)`
  unfoldable pub copy_within : List ℕ → ℕ → ℕ → ℕ → Outcome E (List ℕ)
  unfolding write_at
  copy_within output src n dst =
      if leb (src + n) (length output)
      then write_at output dst (take n (drop src output))
      else panic

  -- `store_lits`: two bytes are always written; the count is what a double entry says.
  unfoldable pub store_lits : List ℕ → ℕ → ℕ → Outcome E (List ℕ × ℕ)
  unfolding write_at
  store_lits output pos entry = do
    first ← write_at output pos (entry / 2 ^ 16 % 256 ∷ [])
    both ← write_at first (pos + 1) (entry / 2 ^ 8 % 256 ∷ [])
    ok (both, 1 + bit_and (entry / 2 ^ 30) 1)

  unfoldable pub put_lits : List ℕ → ℕ → ℕ → Bool → Outcome E (List ℕ × ℕ)
  unfolding store_lits
  put_lits output pos entry true = store_lits output pos entry
  put_lits output pos entry false = do
    output' ← write_at output pos (entry / 2 ^ 16 % 256 ∷ [])
    ok (output', 1)

  -- The loops of `fastloop_match_copy`: chunks of `width` bytes, `step` apart, until `length` bytes
  -- are passed. A step is at least 1, so `length + 1` rounds are enough.
  unfoldable pub copy_chunks : ℕ → List ℕ → ℕ → ℕ → ℕ → ℕ → ℕ → ℕ → Outcome E (List ℕ)
  unfolding copy_within
  copy_chunks zero output dst src len width step i = out_of_fuel
  copy_chunks (suc fuel) output dst src len width step i = do
    output' ← copy_within output (src + i) width (dst + i)
    elim (leb len (i + step)) [
      | true ↦ ok output'
      | false ↦ copy_chunks fuel output' dst src len width step (i + step)
    ]

  unfoldable pub splat_chunks : ℕ → List ℕ → ℕ → ℕ → ℕ → ℕ → Outcome E (List ℕ)
  unfolding write_at
  splat_chunks zero output dst byte len i = out_of_fuel
  splat_chunks (suc fuel) output dst byte len i = do
    output' ← write_at output (dst + i) (replicate 16 byte)
    elim (leb len (i + 16)) [
      | true ↦ ok output'
      | false ↦ splat_chunks fuel output' dst byte len (i + 16)
    ]

  unfoldable pub fastloop_match_copy : List ℕ → ℕ → ℕ → ℕ → ℕ → Outcome E (List ℕ)
  unfolding copy_chunks splat_chunks read
  fastloop_match_copy output out_pos src_start len offset =
      if leb 32 offset
      then copy_chunks (len + 1) output out_pos src_start len 32 32 0
      else if leb 16 offset
      then copy_chunks (len + 1) output out_pos src_start len 16 16 0
      else if offset == 1
      then (do byte ← read output src_start; splat_chunks (len + 1) output out_pos byte len 0)
      else copy_chunks (len + 1) output out_pos src_start len 16 offset 0

  -- The copy of the generic loop: `for i in 0..length`, one byte at a time.
  unfoldable pub copy_bytes : ℕ → List ℕ → ℕ → ℕ → Outcome E (List ℕ)
  unfolding read write_at
  copy_bytes zero output dst src = ok output
  copy_bytes (suc n) output dst src = do
    byte ← read output src
    output' ← write_at output dst (byte ∷ [])
    copy_bytes n output' (dst + 1) (src + 1)

  -- `while copied < length`: the first period, copied behind itself.
  unfoldable pub copy_periods : ℕ → List ℕ → ℕ → ℕ → ℕ → Outcome E (List ℕ)
  unfolding copy_within
  copy_periods zero output out_pos len copied = out_of_fuel
  copy_periods (suc fuel) output out_pos len copied =
      let chunk = min copied (len - copied) in
      if not (ltb copied len) then ok output else (do
        output' ← copy_within output out_pos chunk (out_pos + copied)
        copy_periods fuel output' out_pos len (copied + chunk))

  unfoldable pub generic_match_copy : List ℕ → ℕ → ℕ → ℕ → Outcome E (List ℕ)
  unfolding copy_bytes copy_periods
  generic_match_copy output out_pos len offset =
      let src_start = out_pos - offset in
      if leb len offset
      then copy_within output src_start len out_pos
      else if offset == 1
      then (do byte ← read output src_start; write_at output out_pos (replicate len byte))
      else if leb len 32
      then copy_bytes len output out_pos src_start
      else (do
        output' ← copy_within output src_start offset out_pos
        copy_periods (len + 1) output' out_pos len offset)
