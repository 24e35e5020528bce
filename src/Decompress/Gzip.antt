-- ===== src/Decompress/Gzip.antt =====
-- `gzip_decompress` of src/decompress/mod.rs.
pub mod Safe
pub mod Accepts
pub mod Fields
pub mod Grammar
use zenflate.Prelude.{
  ℕ, zero, suc, ◌+◌, ◌-◌, ◌*◌, ◌/◌, ◌%◌, ◌^◌, bit_and, Option, none, some, List, length, take, drop,
  leb, ltb, ◌==◌, not, ◌&&◌, ◌||◌, Bool, true, false, if◌then◌else◌,
}
use zenflate.Prelude.Words.{from_le_bytes}
use zenflate.Outcome.{
  Outcome, ok, err, panic, out_of_fuel, DecompressionError, read, invalid_header, checksum_mismatch,
}
use zenflate.Outcome
use zenflate.Checksum.Crc32.{crc32}
use zenflate.Decompress.State.{
  ChecksumPolicy, verify, report, ignore, Run, Exec, pure, fail, lift, gets, modify, ensure, ◌>>=◌,
  ◌>>◌,
}
use zenflate.Decompress.Inflate.{deflate_decompress_core}
use zenflate.Decompress.Wrapper.{DecompressOutcome, set_matched}

abbrev pub gzip_footer_size : ℕ
gzip_footer_size = 8

abbrev pub gzip_min_overhead : ℕ
gzip_min_overhead = 18

-- `flg & mask != 0`
abbrev pub has : ℕ → ℕ → Bool
has flg mask = not (bit_and flg mask == 0)

-- `self.checksum == ChecksumPolicy::Ignore`, and `Report`.
abbrev pub ignores : ChecksumPolicy → Bool
ignores verify = false
ignores report = false
ignores ignore = true

abbrev pub reports : ChecksumPolicy → Bool
reports verify = false
reports report = true
reports ignore = false

module _ {ℓ} {R : Type ℓ} where
  -- `if input.len() - pos < need { return Err(hdr_err) }`, where a difference below 0 is a panic.
  unfoldable pub fits : List ℕ → ℕ → ℕ → Outcome (DecompressionError R) ℕ
  fits input pos need =
      if ltb (length input) pos
      then panic
      else if ltb (length input - pos) need
      then err invalid_header
      else ok pos

  unfoldable pub extra_field : List ℕ → ℕ → ℕ → Outcome (DecompressionError R) ℕ
  extra_field input flg pos =
      if not (has flg 4)
      then ok pos
      else if ltb (length input) (pos + 2)
      then err invalid_header
      else Outcome.◌>>=◌ (read input pos) λ lo. Outcome.◌>>=◌ (read input (pos + 1)) λ hi.
        let xlen = lo + 256 * hi in
        Outcome.◌>>=◌ (fits input (pos + 2) (xlen + gzip_footer_size)) λ p. ok (p + xlen)

  -- `while pos < input.len() && input[pos] != 0 { pos += 1 }`
  unfoldable pub skip_text : List ℕ → ℕ → ℕ → Outcome (DecompressionError R) ℕ
  skip_text input zero pos = out_of_fuel
  skip_text input (suc fuel) pos =
      let rest = skip_text input fuel (pos + 1) in
      if not (ltb pos (length input))
      then ok pos
      else Outcome.◌>>=◌ (read input pos) λ b. if b == 0 then ok pos else rest

  -- The file name and the comment are skipped by the same code. A round takes a byte.
  unfoldable pub zero_terminated : List ℕ → ℕ → ℕ → ℕ → Outcome (DecompressionError R) ℕ
  zero_terminated input mask flg pos =
      if not (has flg mask)
      then ok pos
      else Outcome.◌>>=◌ (skip_text input (suc (length input)) pos) λ p.
        if leb (length input) p then err invalid_header else fits input (p + 1) gzip_footer_size

  unfoldable pub header_crc : List ℕ → ℕ → ℕ → Outcome (DecompressionError R) ℕ
  header_crc input flg pos =
      if not (has flg 2) then ok pos else fits input (pos + 2) gzip_footer_size

  -- The fields behind the ten fixed bytes, up to `pos > deflate_end`.
  unfoldable pub optional_fields : List ℕ → ℕ → Outcome (DecompressionError R) ℕ
  optional_fields input flg = Outcome.◌>>=◌ (extra_field input flg 10) λ p1.
      Outcome.◌>>=◌ (zero_terminated input 8 flg p1) λ p2.
        Outcome.◌>>=◌ (zero_terminated input 16 flg p2) λ p3.
          Outcome.◌>>=◌ (header_crc input flg p3)
            λ p4. if ltb (length input - gzip_footer_size) p4 then err invalid_header else ok p4

  -- From the start of `gzip_decompress` to the DEFLATE data; the result is `pos`.
  unfoldable pub gzip_header : List ℕ → Outcome (DecompressionError R) ℕ
  gzip_header input =
      if ltb (length input) gzip_min_overhead
      then err invalid_header
      else Outcome.◌>>=◌ (read input 0) λ id1. Outcome.◌>>=◌ (read input 1) λ id2.
        if not (id1 == 0x1f) || not (id2 == 0x8b)
        then err invalid_header
        else Outcome.◌>>=◌ (read input 2) λ cm.
          if not (cm == 8)
          then err invalid_header
          else Outcome.◌>>=◌ (read input 3)
              λ flg. if has flg 0xe0 then err invalid_header else optional_fields input flg

  -- The footer of a gzip stream against the output.
  unfoldable pub check_gzip_footer : ℕ → ℕ → ℕ → Exec R (Unit {0})
  check_gzip_footer expected_crc expected_size written = do
    policy ← gets (λ s. s.d.checksum)
    output ← gets (λ s. s.output)
    let ignored = ignores policy
    let crc_ok = ignored || crc32 0 (take written output) == expected_crc
    let size_ok = written % 2 ^ 32 == expected_size
    let matched = crc_ok && size_ok
    modify (set_matched (if ignored then none else some matched))
    (if not matched && not (reports policy) then fail checksum_mismatch else pure tt)

  unfoldable pub gzip_decompress : (ℕ → Option R) → List ℕ → Exec R DecompressOutcome
  unfolding gzip_header deflate_decompress_core check_gzip_footer
  gzip_decompress stop input = do
    modify (set_matched none)
    pos ← lift (gzip_header input)
    r ← deflate_decompress_core stop (take (length input - gzip_footer_size - pos) (drop pos input))
    let footer_start = pos + r.0
    let expected_crc = from_le_bytes (take 4 (drop footer_start input))
    let expected_size = from_le_bytes (take 4 (drop (footer_start + 4) input))
    check_gzip_footer expected_crc expected_size r.1
    pure (record { input_consumed = footer_start + gzip_footer_size; output_written = r.1 })
