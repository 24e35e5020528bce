-- ===== src/Decompress/Inflate/Stored.antt =====
-- The uncompressed block of `deflate_decompress_core_impl` (src/decompress/mod.rs).
use zenflate.Prelude.{
  ℕ, ◌+◌, ◌-◌, ◌*◌, ◌/◌, List, length, take, drop, get_or, leb, ltb, ◌==◌, if◌then◌else◌,
}
use zenflate.Prelude.Words.{sub32}
use zenflate.Outcome.{Outcome, ok, err, DecompressionError, bad_data}
use zenflate.Decompress.Refill.{BitReader}
use zenflate.Decompress.Output.{write_at}
use zenflate.Decompress.State.{Exec, lift, gets, modify, ensure, ◌>>=◌, ◌>>◌}

-- The rewind to the byte behind the header's three bits.
unfoldable pub align_input {ℓ} : {R : Type ℓ} → BitReader → Outcome (DecompressionError R) BitReader
align_input b =
    let extra_bytes = sub32 b.bitsleft 3 / 8 in
    if ltb extra_bytes b.overread_count
    then err bad_data
    else ok (record {
      bitbuf = 0;
      bitsleft = 0;
      in_pos = b.in_pos - (extra_bytes - b.overread_count);
      overread_count = 0;
    })

-- A u16 in the input, with the lowest byte first.
unfoldable pub load_u16_le : List ℕ → ℕ → ℕ
load_u16_le input i = get_or input i 0 + 256 * get_or input (i + 1) 0

-- `out_limit` and `no_space` are the limit of the call and its error.
unfoldable pub stored_block {ℓ} :
    {R : Type ℓ} → List ℕ → ℕ → DecompressionError R → Exec R (Unit {0})
unfolding align_input load_u16_le write_at
stored_block input out_limit no_space = do
  before ← gets (λ s. s.bits)
  b ← lift (align_input before)
  ensure (leb (b.in_pos + 4) (length input)) bad_data
  let len = load_u16_le input b.in_pos
  let nlen = load_u16_le input (b.in_pos + 2)
  let from = b.in_pos + 4
  ensure (len == 65535 - nlen) bad_data
  out_pos ← gets (λ s. s.out_pos)
  ensure (leb len (out_limit - out_pos)) no_space
  ensure (leb len (length input - from)) bad_data
  output ← gets (λ s. s.output)
  output' ← lift (write_at output out_pos (take len (drop from input)))
  modify (λ s. record s {
    bits = record b { in_pos = from + len };
    output = output';
    out_pos = out_pos + len;
  })
