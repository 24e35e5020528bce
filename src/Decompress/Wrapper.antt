-- ===== src/Decompress/Wrapper.antt =====
-- `deflate_decompress` and `zlib_decompress` of src/decompress/mod.rs.
use zenflate.Prelude.{
  ℕ, ◌+◌, ◌-◌, ◌*◌, ◌/◌, ◌%◌, ◌^◌, bit_and, Option, none, some, List, length, take, drop, get_or,
  leb, ltb, ◌==◌, not, Bool, true, false, if◌then◌else◌,
}
use zenflate.Prelude.Words.{from_be_bytes}
use zenflate.Outcome.{invalid_header, checksum_mismatch}
use zenflate.Checksum.Adler32.{adler32}
use zenflate.Decompress.State.{
  ChecksumPolicy, verify, report, ignore, Run, Exec, pure, fail, gets, modify, ensure, ◌>>=◌, ◌>>◌,
}
use zenflate.Decompress.Inflate.{deflate_decompress_core}

pub record DecompressOutcome : Type 0 where
  pub input_consumed : ℕ
  pub output_written : ℕ

abbrev pub zlib_min_overhead : ℕ
zlib_min_overhead = 6

abbrev pub zlib_footer_size : ℕ
zlib_footer_size = 4

-- The checks on the two header bytes.
unfoldable pub zlib_header_ok : ℕ → ℕ → Bool
zlib_header_ok cmf flg =
    if not ((256 * cmf + flg) % 31 == 0)
    then false
    else if not (bit_and cmf 0xf == 8)
    then false
    else if ltb 7 (cmf / 2 ^ 4)
    then false
    else bit_and (flg / 2 ^ 5) 1 == 0

abbrev pub set_matched : Option Bool → Run → Run
set_matched m s = record s { d = record s.d { checksum_matched = m } }

-- Whether the footer is compared, and whether a difference is an error.
unfoldable pub compares : ChecksumPolicy → Bool
compares verify = true
compares report = true
compares ignore = false

unfoldable pub refuses : ChecksumPolicy → Bool
refuses verify = true
refuses report = false
refuses ignore = false

module _ {ℓ} {R : Type ℓ} where
  unfoldable pub deflate_decompress : (ℕ → Option R) → List ℕ → Exec R DecompressOutcome
  unfolding deflate_decompress_core
  deflate_decompress stop input = do
    modify (set_matched none)
    r ← deflate_decompress_core stop input
    pure (record { input_consumed = r.0; output_written = r.1 })

  -- The footer of a zlib stream against the checksum of the output.
  unfoldable pub check_footer : ℕ → ℕ → Exec R (Unit {0})
  unfolding compares refuses
  check_footer expected written = do
    modify (set_matched none)
    policy ← gets (λ s. s.d.checksum)
    (if not (compares policy) then pure tt else do
      output ← gets (λ s. s.output)
      let matched = adler32 1 (take written output) == expected
      modify (set_matched (some matched))
      (if matched then pure tt else if refuses policy then fail checksum_mismatch else pure tt))

  unfoldable pub zlib_decompress : (ℕ → Option R) → List ℕ → Exec R DecompressOutcome
  unfolding zlib_header_ok deflate_decompress_core check_footer
  zlib_decompress stop input = do
    modify (set_matched none)
    ensure (leb zlib_min_overhead (length input)) invalid_header
    ensure (zlib_header_ok (get_or input 0 0) (get_or input 1 0)) invalid_header
    r ← deflate_decompress_core stop (take (length input - zlib_footer_size - 2) (drop 2 input))
    let footer_start = 2 + r.0
    check_footer (from_be_bytes 0 (take 4 (drop footer_start input))) r.1
    pure (record { input_consumed = footer_start + zlib_footer_size; output_written = r.1 })
