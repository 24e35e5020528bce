-- ===== src/Decompress/Gzip/Grammar.antt =====
-- `gzip_decompress` of src/decompress/mod.rs takes every header that the gzip format allows.
use zenflate.Prelude.{
  ℕ, ◌+◌, ◌-◌, ◌≤◌, List, ◌++◌, length, drop, arith, ◌≡◌, ap, ◌∙◌, length-append, append_assoc,
  ge→ltb,
}
use zenflate.Outcome.{ok, read}
use zenflate.Decompress.Gzip.{optional_fields, gzip_header}
use zenflate.Decompress.Gzip.Accepts.{
  GzipHeader, given, flags, extra_bytes, text_bytes, checksum_bytes, header_bytes, has-extra,
  has-name, has-comment, has-checksum, has-reserved,
}
use zenflate.Decompress.Gzip.Fields.{
  IsText, drop-next, extra_field-given, zero_terminated-given, header_crc-given,
}

abbrev flags_of : GzipHeader → ℕ
flags_of h = flags h.is_text (given h.checksum) (given h.extra) (given h.name) (given h.comment)

optional_fields-given {ℓ} :
    (R : Type ℓ) (h : GzipHeader) (input rest : List ℕ)
    → drop 10 input
      ≡ extra_bytes h.extra
        ++ (text_bytes h.name ++ (text_bytes h.comment ++ (checksum_bytes h.checksum ++ rest)))
    → IsText h.name
    → IsText h.comment
    → 8 ≤ length rest
    → length input ≡ length (header_bytes h) + length rest
    → optional_fields {R = R} input (flags_of h) ≡ ok (length (header_bytes h))
unfolding optional_fields
optional_fields-given R h input rest at_ten named commented room size =
    let a = h.is_text in
    let b = given h.checksum in
    let c = given h.extra in
    let d = given h.name in
    let e = given h.comment in
    let xs = extra_bytes h.extra in
    let ns = text_bytes h.name in
    let cs = text_bytes h.comment in
    let ks = checksum_bytes h.checksum in
    let at_name = drop-next input xs (ns ++ (cs ++ (ks ++ rest))) 10 at_ten in
    let at_comment = drop-next input ns (cs ++ (ks ++ rest)) (10 + length xs) at_name in
    let at_crc = drop-next input cs (ks ++ rest) (10 + length xs + length ns) at_comment in
    let size3 = length-append ks rest in
    let size2 = length-append cs (ks ++ rest) in
    let size1 = length-append ns (cs ++ (ks ++ rest)) in
    let whole3 = length-append cs ks in
    let whole2 = length-append ns (cs ++ ks) in
    let whole1 = length-append xs (ns ++ (cs ++ ks)) in
    let stop : 10 + length xs + length ns + length cs + length ks ≡ length (header_bytes h) =
      omega (arith, whole1, whole2, whole3) in
    rw
      (
        extra_field-given R input (flags_of h) 10 h.extra (ns ++ (cs ++ (ks ++ rest)))
            (has-extra a b c d e) at_ten (omega (arith, size1, size2, size3, room)),
        zero_terminated-given R input (flags_of h) 8 (10 + length xs) h.name (cs ++ (ks ++ rest))
            (has-name a b c d e) named at_name (omega (arith, size2, size3, room)),
        zero_terminated-given R input (flags_of h) 16 (10 + length xs + length ns) h.comment
            (ks ++ rest) (has-comment a b c d e) commented at_comment (omega (arith, size3, room)),
        header_crc-given R input (flags_of h) (10 + length xs + length ns + length cs) h.checksum
            rest (has-checksum a b c d e) at_crc room,
        ge→ltb (length input - 8) (10 + length xs + length ns + length cs + length ks)
            (omega (arith, size, stop, room)),
      )
      (ap (λ (t : ℕ). ok t) stop)

-- Every header of the gzip format, with each of its optional fields or without it, is taken to its
-- end, where at least the 8 bytes of the footer stand behind it. A name and a comment have no zero
-- byte.
pub gzip_header-header_bytes {ℓ} :
    (R : Type ℓ) (h : GzipHeader) (rest : List ℕ)
    → IsText h.name
    → IsText h.comment
    → 8 ≤ length rest
    → gzip_header {R = R} (header_bytes h ++ rest) ≡ ok (length (header_bytes h))
unfolding gzip_header read
gzip_header-header_bytes R h rest named commented room =
    let input = header_bytes h ++ rest in
    let size = length-append (header_bytes h) rest in
    let xs = extra_bytes h.extra in
    let ns = text_bytes h.name in
    let cs = text_bytes h.comment in
    let ks = checksum_bytes h.checksum in
    let at_ten : drop 10 input ≡ xs ++ (ns ++ (cs ++ (ks ++ rest))) =
      append_assoc xs (ns ++ (cs ++ ks)) rest
      ∙ ap (λ t. xs ++ t)
          (append_assoc ns (cs ++ ks) rest ∙ ap (λ t. ns ++ t) (append_assoc cs ks rest)) in
    rw
      (
        ge→ltb (length input) 18 (omega (arith, size, room)),
        has-reserved h.is_text (given h.checksum) (given h.extra) (given h.name) (given h.comment),
      )
      (optional_fields-given R h input rest at_ten named commented room size)
