-- ===== src/Compress/Block/HeaderBits.antt =====
-- `write_dynamic_header_body` and `dynamic_header_bits` of src/compress/block.rs: what the first
-- writes, and that the second counts it.
use zenflate.Prelude.{
  ℕ, ◌+◌, ◌*◌, ◌≤◌, ◌<◌, ◌++◌, length, take, get_or, replicate, All, All-append, All-take, arith,
  ◌≡◌, refl, sym, ap, ◌∙◌, length-append, length-take,
}
use mathlib.Core.Path.{subst}
use zenflate.Outcome.{Outcome, ok, err, panic, out_of_fuel}
use zenflate.Bitstream.{OutputBitstream}
use zenflate.Bitstream.Value.{IsValid, size}
use zenflate.Bitstream.Fields.{width, Written}
use zenflate.Bitstream.Groups.{flat, IsGroup, width-append, put_groups-Written, flat-append}
use zenflate.Decompress.Tables.{precode_lens_permutation}
use zenflate.Compress.Huffman.Make.Prefix.{make_huffman_code-Code}
use zenflate.Compress.Precode.Expand.{symbol_count}
use zenflate.Compress.Precode.RoundTrip.{compute_precode_items_flagged-Stands}
use zenflate.Compress.Precode
use zenflate.Compress.Block.{
  DeflateCodes, DynamicHeader, extra_precode_bits, trim, write_header, header_bits, dynamic_header,
  write_dynamic_header_body, dynamic_header_bits,
}
use zenflate.Compress.Block.HeaderFields.{
  len_groups, item_groups, header_groups, items_bits, write_header-eq, width-len_groups,
  width-item_groups, counted_bits-items, add_symbol_bits-eq, items_bits-le, small_extra, trim-le,
}
use zenflate.Compress.Block.HeaderGroups.{Sound, header_groups-IsGroup}

header_bits-width : (h : DynamicHeader) → Sound h → header_bits h ≡ width (flat (header_groups h))
unfolding header_bits
header_bits-width h v =
    let lens = h.precode_lens in
    let items = h.precode.items in
    let perms = take h.num_explicit_lens precode_lens_permutation in
    let start = 5 + 5 + 4 + 3 * h.num_explicit_lens in
    let lists = len_groups lens perms in
    let rest = item_groups h.precode_codewords lens items in
    let counted = counted_bits-items lens items v.code.size in
    let perms_size : length perms ≡ h.num_explicit_lens =
      length-take h.num_explicit_lens precode_lens_permutation ∙ omega (arith, v.explicit) in
    let parts : width (flat (lists ++ rest)) ≡ 3 * h.num_explicit_lens + items_bits lens items =
      ap width (flat-append lists rest)
      ∙ width-append (flat lists) (flat rest)
      ∙ omega (
        arith,
        width-len_groups lens perms,
        width-item_groups h.precode_codewords lens items,
        perms_size,
      ) in
    add_symbol_bits-eq 0 start items h.precode.precode_freqs lens extra_precode_bits
      (v.freqs_size ∙ sym v.code.size)
      (λ i l.
        let z : i ≡ 0 + i = omega arith in
        v.freqs i (omega (arith, l, v.code.size)) ∙ ap (λ (t : ℕ). symbol_count t items) z)
      (omega (arith, counted, v.explicit, v.few, items_bits-le lens items v.code.short))
      v.code.short small_extra
    ∙ omega (arith, counted, parts)

-- The lengths of the codes of a block: one for each symbol of the format, and none above 15.
pub record IsCodes (codes : DeflateCodes) : Type 0 where
  pub litlen_size : length codes.lens_litlen ≡ 288
  pub offset_size : length codes.lens_offset ≡ 32
  pub litlen_short : All (λ (l : ℕ). l < 16) codes.lens_litlen
  pub offset_short : All (λ (l : ℕ). l < 16) codes.lens_offset

dynamic_header-Sound :
    (E : Type 0) (codes : DeflateCodes)
    → IsCodes codes
    → (h : DynamicHeader) × (dynamic_header {E = E} codes ≡ ok h) × Sound h
unfolding dynamic_header Precode.compute_precode_items
dynamic_header-Sound E codes v =
    let n = trim 257 (λ i. get_or codes.lens_litlen i 0) 288 in
    let m = trim 1 (λ i. get_or codes.lens_offset i 0) 32 in
    let litlen = take n codes.lens_litlen in
    let offset = take m codes.lens_offset in
    let all = litlen ++ offset in
    let total : length all ≤ 320 = omega (
      arith,
      length-append litlen offset,
      length-take n codes.lens_litlen,
      length-take m codes.lens_offset,
      v.litlen_size,
      v.offset_size,
    ) in
    let short =
      All-append (λ (l : ℕ). l < 16) litlen offset
        (All-take (λ (l : ℕ). l < 16) n codes.lens_litlen v.litlen_short)
        (All-take (λ (l : ℕ). l < 16) m codes.lens_offset v.offset_short) in
    let (w, eq, stands) =
      compute_precode_items_flagged-Stands E all Precode.default short (omega (arith, total)) in
    let (r, eq2, code) =
      make_huffman_code-Code E 19 7 w.precode_freqs (replicate 19 0) (replicate 19 0) (omega arith)
        (omega arith) (omega arith) (omega arith) stands.size refl (omega arith) in
    let explicit = λ (i : ℕ). get_or r.0 (get_or precode_lens_permutation i 0) 0 in
    (
      record {
        num_litlen_syms = n;
        num_offset_syms = m;
        precode = w;
        precode_lens = r.0;
        precode_codewords = r.1;
        num_explicit_lens = trim 4 explicit 19;
      },
      rw (eq, eq2) refl,
      record {
        stands = stands.fields;
        freqs_size = stands.size;
        freqs = stands.freqs;
        few = omega (arith, stands.few, total);
        code = code;
        litlen = trim-le 257 (λ i. get_or codes.lens_litlen i 0) 288;
        offset = trim-le 1 (λ i. get_or codes.lens_offset i 0) 32;
        explicit = trim-le 4 explicit 19;
      },
    )

-- `dynamic_header_bits` is exact: for lengths of at most 15 for the symbols of the format, it returns
-- the number of bits that the fields of the header take together, which are those that
-- `write_dynamic_header_body` adds. From a valid stream with less than a byte in its buffer, with
-- room for them, these fields are all written, in order. The value of each field fits its bits, and
-- the fields between two flushes take 56 bits at most.
pub write_dynamic_header_body-Written :
    (E : Type 0) (os : OutputBitstream) (codes : DeflateCodes) (h : DynamicHeader)
    → IsCodes codes
    → dynamic_header {E = E} codes ≡ ok h
    → IsValid os
    → os.bitcount < 8
    → size os + header_bits h < 8 * length os.buf + 8
    → (out : OutputBitstream) × (write_dynamic_header_body {E = E} os codes ≡ ok out)
      × Written os (flat (header_groups h)) out
      × (dynamic_header_bits {E = E} codes ≡ ok (header_bits h))
      × (size out ≡ size os + header_bits h)
      × All IsGroup (header_groups h)
unfolding write_dynamic_header_body dynamic_header_bits
write_dynamic_header_body-Written E os codes h v eq valid count room =
    let (made, made_eq, sound) = dynamic_header-Sound E codes v in
    let same : made ≡ h = ap (header_of made) (sym made_eq ∙ eq) in
    let ok_header = subst Sound same sound in
    let bits = header_bits-width h ok_header in
    let w =
      put_groups-Written os (header_groups h) valid count (header_groups-IsGroup h ok_header)
        (omega (arith, room, bits)) in
    let written = subst (Written os (flat (header_groups h))) (sym (write_header-eq os h)) w in
    (
      write_header os h,
      rw eq refl,
      written,
      rw eq refl,
      omega (arith, written.all_counted, bits),
      header_groups-IsGroup h ok_header,
    )
  where
    header_of : DynamicHeader → Outcome E DynamicHeader → DynamicHeader
    header_of default (ok h) = h
    header_of default (err e) = default
    header_of default panic = default
    header_of default out_of_fuel = default
