-- ===== src/RoundTrip/Zlib.antt =====
-- `zlib_compress` of src/compress/mod.rs, then `zlib_decompress` of src/decompress/mod.rs.
use zenflate.Prelude.{
  ℕ, suc, ◌+◌, ◌-◌, ◌^◌, ◌≤◌, ◌<◌, Option, none, some, List, ◌∷◌, ◌++◌, length, take, drop, All,
  ◌==◌, ==_iff, Bool, true, if◌then◌else◌, arith, ◌≡◌, refl, sym, ap, inl, inr, ◌∙◌, length-append,
  length-take, length-drop, take-append, drop-append, take_all, ge→ltb, le→leb,
}
use zenflate.Prelude.Words.{IsByte, to_be_bytes, from_be_bytes}
use zenflate.Prelude.Buffer.{write, take-write}
use zenflate.Outcome.{ok}
use zenflate.Checksum.Adler32.{adler32}
use zenflate.Checksum.Adler32.Combine.{adler32-IsAdler}
use zenflate.Decompress.State.{Decompressor, ChecksumPolicy, Run}
use zenflate.Decompress.Inflate.{deflate_decompress_core, start}
use zenflate.Decompress.Wrapper.{zlib_decompress, check_footer, compares, set_matched}
use zenflate.Compress.{zlib_compress_bound, zlib_header}
use zenflate.Compress.Header.{zlib_header-accepted}
use zenflate.Compress.Wrapped.{zlib_compress}
use zenflate.RoundTrip.Encoder.{Encoder, Inverted, policy-cases}

be_word : (x : ℕ) → x < 2 ^ 32 → from_be_bytes 0 (to_be_bytes 4 x) ≡ x
unfolding from_be_bytes to_be_bytes
be_word x h = omega (arith, h)

length-be_word : (x : ℕ) → length (to_be_bytes 4 x) ≡ 4
unfolding to_be_bytes
length-be_word x = refl

adler32-lt : (bytes : List ℕ) → All IsByte bytes → adler32 1 bytes < 2 ^ 32
adler32-lt bytes hb =
    let (lo, hi) = adler32-IsAdler 1 bytes (omega arith, omega arith) hb in omega (arith, lo, hi)

-- The stream: the header, the `n` bytes of the call, the checksum.
zlib_stream : ℕ → List ℕ → List ℕ → List ℕ
zlib_stream level body input =
    (zlib_header level).0 ∷ (zlib_header level).1 ∷ (body ++ to_be_bytes 4 (adler32 1 input))

-- What the footer's check leaves in `checksum_matched` when the checksum is right.
abbrev pub matched_zlib : ChecksumPolicy → Option Bool
matched_zlib policy = if compares policy then some true else none

check_footer-right {ℓ} :
    (R : Type ℓ) (s : Run) (n expected : ℕ)
    → expected ≡ adler32 1 (take n s.output)
    → check_footer {R = R} expected n s ≡ (ok tt, set_matched (matched_zlib s.d.checksum) s)
unfolding check_footer
check_footer-right R s n expected e = elim (policy-cases s.d.checksum) [
  | inl h ↦ rw h refl
  | inr r ↦ elim r [ inl h ↦ rw (h, sym e, same) refl | inr h ↦ rw (h, sym e, same) refl ]
]
  where
    same : (expected == expected) ≡ true
    same = (==_iff expected expected).1 refl

zlib_compress-writes {ℓ κ} :
    (Q : Type ℓ) (R : Type κ) (enc : Encoder Q R) (level : ℕ) (stop : ℕ → Option R)
    (input output target : List ℕ) (d : Decompressor)
    (v : Inverted enc.deflate stop input (drop 2 output) target d)
    → zlib_compress_bound (length input) ≤ length output
    → (written : List ℕ) × (zlib_compress enc.deflate level input output
        ≡ ok (2 + v.size + 4, written))
      × (take (2 + v.size + 4) written ≡ zlib_stream level (take v.size v.written) input)
unfolding zlib_compress zlib_compress_bound write zlib_stream
zlib_compress-writes Q R enc level stop input output target d v room =
    let n = v.size in
    let le = v.bounded in
    let sum = to_be_bytes 4 (adler32 1 input) in
    let hdr = zlib_header level in
    let buf = hdr.0 ∷ hdr.1 ∷ v.written in
    let e : 2 + n ≡ suc (suc n) = omega arith in
    (
      write buf (2 + n) sum,
      rw
          (
            ge→ltb (length output) 6 (omega (arith, room)),
            v.compressed,
            ge→ltb (length output) (2 + n + 4) (omega (arith, room, le)),
          )
          refl,
      take-write 4 buf (2 + n) sum (omega (arith, v.in_range))
            (omega (arith, length-be_word (adler32 1 input)))
          ∙ ap (λ t. take (2 + n) buf ++ t)
              (take_all 4 sum (omega (arith, length-be_word (adler32 1 input))))
          ∙ ap (λ (t : ℕ). take t buf ++ sum) e,
    )

zlib_decompress-stream {ℓ} :
    (R : Type ℓ) (stop : ℕ → Option R) (level : ℕ) (body input : List ℕ) (s run : Run)
    → All IsByte input
    → deflate_decompress_core stop body (set_matched none s) ≡ (ok (length body, length input), run)
    → take (length input) run.output ≡ input
    → zlib_decompress stop (zlib_stream level body input) s ≡ (
      ok (record { input_consumed = 2 + length body + 4; output_written = length input }),
      set_matched (matched_zlib run.d.checksum) run,
    )
unfolding zlib_decompress zlib_stream
zlib_decompress-stream R stop level body input s run hb decoded same =
    let sum = to_be_bytes 4 (adler32 1 input) in
    let whole = zlib_stream level body input in
    let size = length-append body sum in
    let four = length-be_word (adler32 1 input) in
    let slice : take (length whole - 4 - 2) (body ++ sum) ≡ body =
      ap (λ (t : ℕ). take t (body ++ sum)) (omega (arith, size, four)) ∙ take-append body sum in
    let e : 2 + length body ≡ suc (suc (length body)) = omega arith in
    let footer : from_be_bytes 0 (take 4 (drop (2 + length body) whole))
        ≡ adler32 1 (take (length input) run.output) =
      ap (λ (t : ℕ). from_be_bytes 0 (take 4 (drop t whole))) e
      ∙ ap (λ t. from_be_bytes 0 (take 4 t)) (drop-append body sum)
      ∙ ap (from_be_bytes 0) (take_all 4 sum (omega (arith, four)))
      ∙ be_word (adler32 1 input) (adler32-lt input hb)
      ∙ ap (adler32 1) (sym same) in
    rw
      (
        le→leb 6 (length whole) (omega (arith, size, four)),
        zlib_header-accepted level,
        slice,
        decoded,
        check_footer-right R run (length input) _ footer,
      )
      refl

-- What `zlib_compress` writes for an input of bytes around a compressor whose calls the DEFLATE
-- decoder inverts, with `zlib_compress_bound` bytes of room, `zlib_decompress` decodes to that
-- input: both calls succeed, the second takes all that the first wrote, writes as many bytes as the
-- input has, and finds the checksum right, unless its policy is to ignore it. The target has room,
-- and there is no output limit and no stop.
pub zlib_decompress-zlib_compress {ℓ κ} :
    (Q : Type ℓ) (R : Type κ) (enc : Encoder Q R) (level : ℕ) (stop : ℕ → Option R)
    (input output target : List ℕ) (d : Decompressor)
    → ((n : ℕ) → stop n ≡ none)
    → All IsByte input
    → zlib_compress_bound (length input) ≤ length output
    → d.max_output_size ≡ none
    → length input ≤ length target
    → (n : ℕ) × (written : List ℕ) × (s : Run) × (zlib_compress enc.deflate level input output
        ≡ ok (n, written))
      × (zlib_decompress stop (take n written) (start d target)
          ≡ (ok (record { input_consumed = n; output_written = length input }), s))
      × (take (length input) s.output ≡ input)
      × (s.d.checksum_matched ≡ matched_zlib d.checksum)
unfolding zlib_compress_bound
zlib_decompress-zlib_compress Q R enc level stop input output target d go hb room no_limit fits =
    let d' : Decompressor = record d { checksum_matched = none } in
    let v =
      enc.inverts stop input (drop 2 output) target d' go hb
        (omega (arith, room, length-drop 2 output)) no_limit fits in
    let (written, eq, stream) =
      zlib_compress-writes Q R enc level stop input output target d' v room in
    let body = take v.size v.written in
    let size : length body ≡ v.size = omega (arith, length-take v.size v.written, v.in_range) in
    let decoded = v.decoded ∙ ap (λ (t : ℕ). (ok (t, length input), v.run)) (sym size) in
    let back =
      zlib_decompress-stream R stop level body input (start d target) v.run hb decoded v.holds in
    (
      2 + v.size + 4,
      written,
      set_matched (matched_zlib v.run.d.checksum) v.run,
      eq,
      ap (λ l. zlib_decompress stop l (start d target)) stream
          ∙ back
          ∙ ap
              (λ (t : ℕ). (
                ok (record { input_consumed = 2 + t + 4; output_written = length input }),
                set_matched (matched_zlib v.run.d.checksum) v.run,
              ))
              size,
      v.holds,
      ap matched_zlib v.policy,
    )
