-- ===== src/RoundTrip/Gzip.antt =====
-- `gzip_compress` of src/compress/mod.rs, then `gzip_decompress` of src/decompress/mod.rs.
use zenflate.Prelude.{
  ℕ, suc, ◌+◌, ◌-◌, ◌%◌, ◌^◌, ◌≤◌, ◌<◌, Option, none, some, List, ◌++◌, length, take, drop, All,
  ◌==◌, ==_iff, Bool, true, if◌then◌else◌, arith, ◌≡◌, refl, sym, ap, ◌∙◌, inl, inr, length-append,
  length-take, length-drop, take-append, drop-append, drop-drop, take_all, ge→ltb,
}
use zenflate.Prelude.Words.{
  IsByte, to_le_bytes, from_le_bytes, length-to_le_bytes, from-to_le_bytes,
}
use zenflate.Prelude.Buffer.{write, take-write_twice}
use zenflate.Outcome.{ok, read}
use zenflate.Checksum.Crc32.{crc32}
use zenflate.Checksum.Crc32.Combine.{crc32-lt}
use zenflate.Decompress.State.{Decompressor, ChecksumPolicy, Run}
use zenflate.Decompress.Inflate.{deflate_decompress_core, start}
use zenflate.Decompress.Wrapper.{set_matched}
use zenflate.Decompress.Gzip.{
  gzip_decompress, gzip_header, check_gzip_footer, ignores, optional_fields, extra_field,
  zero_terminated, header_crc,
}
use zenflate.Compress.{gzip_compress_bound}
use zenflate.Compress.Wrapped.{gzip_compress, gzip_header_bytes}
use zenflate.RoundTrip.Encoder.{Encoder, Inverted, policy-cases}

le_word : (x : ℕ) → x < 2 ^ 32 → from_le_bytes (to_le_bytes 4 x) ≡ x
le_word x h = from-to_le_bytes 4 x ∙ omega (arith, h)

-- The two words of the footer.
crc_bytes : List ℕ → List ℕ
crc_bytes input = to_le_bytes 4 (crc32 0 input)

size_bytes : List ℕ → List ℕ
size_bytes input = to_le_bytes 4 (length input % 2 ^ 32)

gzip_stream : ℕ → List ℕ → List ℕ → List ℕ
gzip_stream level body input =
    gzip_header_bytes level ++ (body ++ (crc_bytes input ++ size_bytes input))

abbrev pub matched_gzip : ChecksumPolicy → Option Bool
matched_gzip policy = if ignores policy then none else some true

check_gzip_footer-right {ℓ} :
    (R : Type ℓ) (s : Run) (n crc size : ℕ)
    → crc ≡ crc32 0 (take n s.output)
    → size ≡ n % 2 ^ 32
    → check_gzip_footer {R = R} crc size n s ≡ (ok tt, set_matched (matched_gzip s.d.checksum) s)
unfolding check_gzip_footer
check_gzip_footer-right R s n crc size e f = elim (policy-cases s.d.checksum) [
  | inl h ↦ rw (h, sym f, same size) refl
  | inr r ↦ elim r [
    | inl h ↦ rw (h, sym e, sym f, same crc, same size) refl
    | inr h ↦ rw (h, sym e, sym f, same crc, same size) refl
  ]
]
  where
    same : (k : ℕ) → (k == k) ≡ true
    same k = (==_iff k k).1 refl

-- The header that `gzip_compress` writes has no optional field.
gzip_header-plain {ℓ} :
    (R : Type ℓ) (level : ℕ) (rest : List ℕ)
    → 8 ≤ length rest
    → gzip_header {R = R} (gzip_header_bytes level ++ rest) ≡ ok 10
unfolding gzip_header gzip_header_bytes read optional_fields extra_field zero_terminated header_crc
gzip_header-plain R level rest h =
    let whole = gzip_header_bytes level ++ rest in
    rw
      (ge→ltb (length whole) 18 (omega (arith, h)), ge→ltb (length whole - 8) 10 (omega (arith, h)))
      refl

length-header : (level : ℕ) → length (gzip_header_bytes level) ≡ 10
unfolding gzip_header_bytes
length-header level = refl

drop-header : (level : ℕ) (rest : List ℕ) → drop 10 (gzip_header_bytes level ++ rest) ≡ rest
unfolding gzip_header_bytes
drop-header level rest = refl

gzip_compress-writes {ℓ κ} :
    (Q : Type ℓ) (R : Type κ) (enc : Encoder Q R) (level : ℕ) (stop : ℕ → Option R)
    (input output target : List ℕ) (d : Decompressor)
    (v : Inverted enc.deflate stop input (drop 10 output) target d)
    → gzip_compress_bound (length input) ≤ length output
    → (written : List ℕ) × (gzip_compress enc.deflate level input output
        ≡ ok (10 + v.size + 8, written))
      × (take (10 + v.size + 8) written ≡ gzip_stream level (take v.size v.written) input)
unfolding gzip_compress gzip_compress_bound write gzip_stream gzip_header_bytes crc_bytes size_bytes
gzip_compress-writes Q R enc level stop input output target d v room =
    let n = v.size in
    let le = v.bounded in
    let crc = crc_bytes input in
    let isize = size_bytes input in
    let buf = gzip_header_bytes level ++ v.written in
    let mid = write buf (10 + n) crc in
    let four_a = length-to_le_bytes 4 (crc32 0 input) in
    let four_b = length-to_le_bytes 4 (length input % 2 ^ 32) in
    let sizes : 10 + n + 8 ≡ 10 + n + length crc + length isize = omega (arith, four_a, four_b) in
    let e : 10 + n ≡ suc (suc (suc (suc (suc (suc (suc (suc (suc (suc n))))))))) = omega arith in
    (
      write mid (10 + n + 4) isize,
      rw
          (
            ge→ltb (length output) 18 (omega (arith, room)),
            v.compressed,
            ge→ltb (length output) (10 + n + 8) (omega (arith, room, le)),
          )
          refl,
      ap (λ (t : ℕ). take t (write mid (10 + n + 4) isize)) sizes
          ∙ ap (λ (t : ℕ). take (10 + n + length crc + length isize) (write mid (10 + n + t) isize))
              (sym four_a)
          ∙ take-write_twice buf (10 + n) crc isize (omega (arith, v.in_range))
          ∙ ap (λ (t : ℕ). take t buf ++ (crc ++ isize)) e,
    )

gzip_decompress-stream {ℓ} :
    (R : Type ℓ) (stop : ℕ → Option R) (level : ℕ) (body input : List ℕ) (s run : Run)
    → All IsByte input
    → deflate_decompress_core stop body (set_matched none s) ≡ (ok (length body, length input), run)
    → take (length input) run.output ≡ input
    → gzip_decompress stop (gzip_stream level body input) s ≡ (
      ok (record { input_consumed = 10 + length body + 8; output_written = length input }),
      set_matched (matched_gzip run.d.checksum) run,
    )
unfolding gzip_decompress gzip_stream crc_bytes size_bytes
gzip_decompress-stream R stop level body input s run hb decoded same =
    let crc = crc_bytes input in
    let isize = size_bytes input in
    let n = length body in
    let hdr = gzip_header_bytes level in
    let whole = gzip_stream level body input in
    let size_a = length-append hdr (body ++ (crc ++ isize)) in
    let size_b = length-append body (crc ++ isize) in
    let size_c = length-append crc isize in
    let four_a : length crc ≡ 4 = length-to_le_bytes 4 (crc32 0 input) in
    let four_b : length isize ≡ 4 = length-to_le_bytes 4 (length input % 2 ^ 32) in
    let ten = length-header level in
    let behind : drop (10 + n) whole ≡ crc ++ isize =
      sym (drop-drop 10 n whole)
      ∙ ap (drop n) (drop-header level (body ++ (crc ++ isize)))
      ∙ drop-append body (crc ++ isize) in
    let slice : take (length whole - 8 - 10) (drop 10 whole) ≡ body =
      ap (λ t. take (length whole - 8 - 10) t) (drop-header level (body ++ (crc ++ isize)))
      ∙ ap (λ (t : ℕ). take t (body ++ (crc ++ isize)))
          (omega (arith, size_a, size_b, size_c, four_a, four_b, ten))
      ∙ take-append body (crc ++ isize) in
    let crc_read : from_le_bytes (take 4 (drop (10 + n) whole))
        ≡ crc32 0 (take (length input) run.output) =
      ap (λ t. from_le_bytes (take 4 t)) behind
      ∙ ap (λ (t : ℕ). from_le_bytes (take t (crc ++ isize))) (sym four_a)
      ∙ ap from_le_bytes (take-append crc isize)
      ∙ le_word (crc32 0 input) (crc32-lt 0 input (omega arith) hb)
      ∙ ap (crc32 0) (sym same) in
    let size_read : from_le_bytes (take 4 (drop (10 + n + 4) whole)) ≡ length input % 2 ^ 32 =
      ap (λ t. from_le_bytes (take 4 t))
        (sym (drop-drop (10 + n) 4 whole)
          ∙ ap (drop 4) behind
          ∙ ap (λ (t : ℕ). drop t (crc ++ isize)) (sym four_a)
          ∙ drop-append crc isize)
      ∙ ap from_le_bytes (take_all 4 isize (omega (arith, four_b)))
      ∙ le_word (length input % 2 ^ 32) (omega arith) in
    rw
      (
        gzip_header-plain R level (body ++ (crc ++ isize))
            (omega (arith, size_b, size_c, four_a, four_b)),
        slice,
        decoded,
        check_gzip_footer-right R run (length input) _ _ crc_read size_read,
      )
      refl

-- What `gzip_compress` writes for an input of bytes around a compressor whose calls the DEFLATE
-- decoder inverts, with `gzip_compress_bound` bytes of room, `gzip_decompress` decodes to that
-- input: both calls succeed, the second takes all that the first wrote, writes as many bytes as the
-- input has, and finds the CRC-32 and the size right, unless its policy is to ignore them. The
-- target has room, and there is no output limit and no stop.
pub gzip_decompress-gzip_compress {ℓ κ} :
    (Q : Type ℓ) (R : Type κ) (enc : Encoder Q R) (level : ℕ) (stop : ℕ → Option R)
    (input output target : List ℕ) (d : Decompressor)
    → ((n : ℕ) → stop n ≡ none)
    → All IsByte input
    → gzip_compress_bound (length input) ≤ length output
    → d.max_output_size ≡ none
    → length input ≤ length target
    → (n : ℕ) × (written : List ℕ) × (s : Run) × (gzip_compress enc.deflate level input output
        ≡ ok (n, written))
      × (gzip_decompress stop (take n written) (start d target)
          ≡ (ok (record { input_consumed = n; output_written = length input }), s))
      × (take (length input) s.output ≡ input)
      × (s.d.checksum_matched ≡ matched_gzip d.checksum)
unfolding gzip_compress_bound
gzip_decompress-gzip_compress Q R enc level stop input output target d go hb room no_limit fits =
    let d' : Decompressor = record d { checksum_matched = none } in
    let v =
      enc.inverts stop input (drop 10 output) target d' go hb
        (omega (arith, room, length-drop 10 output)) no_limit fits in
    let (written, eq, stream) =
      gzip_compress-writes Q R enc level stop input output target d' v room in
    let body = take v.size v.written in
    let size : length body ≡ v.size = omega (arith, length-take v.size v.written, v.in_range) in
    let decoded = v.decoded ∙ ap (λ (t : ℕ). (ok (t, length input), v.run)) (sym size) in
    let back =
      gzip_decompress-stream R stop level body input (start d target) v.run hb decoded v.holds in
    (
      10 + v.size + 8,
      written,
      set_matched (matched_gzip v.run.d.checksum) v.run,
      eq,
      ap (λ l. gzip_decompress stop l (start d target)) stream
          ∙ back
          ∙ ap
              (λ (t : ℕ). (
                ok (record { input_consumed = 10 + t + 8; output_written = length input }),
                set_matched (matched_gzip v.run.d.checksum) v.run,
              ))
              size,
      v.holds,
      ap matched_gzip v.policy,
    )
