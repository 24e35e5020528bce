-- ===== src/Compress/Block.antt =====
-- src/compress/block.rs: the codes of a block, and the header of a dynamic block.
pub mod HeaderFields
pub mod HeaderGroups
pub mod HeaderBits
use zenflate.Prelude.{
  ℕ, zero, suc, ◌+◌, ◌-◌, ◌*◌, ◌/◌, ◌^◌, bit_and, List, [], ◌∷◌, ◌++◌, length, take, get_or,
  replicate, ltb, ◌==◌, ◌&&◌, if◌then◌else◌,
}
use zenflate.Prelude.Words.{add32, sub32, mul32}
use zenflate.Outcome.{Outcome, ok, ◌>>=◌}
use zenflate.Bitstream.{OutputBitstream, add_bits, flush_bits}
use zenflate.Decompress.Tables.{precode_lens_permutation}
use zenflate.Compress.Huffman.Make.{make_huffman_code}
use zenflate.Compress.Precode.{Written, compute_precode_items}

pub record DeflateCodes : Type 0 where
  pub codewords_litlen : List ℕ
  pub codewords_offset : List ℕ
  pub lens_litlen : List ℕ
  pub lens_offset : List ℕ

pub record DeflateFreqs : Type 0 where
  pub litlen : List ℕ
  pub offset : List ℕ

abbrev pub max_litlen_codeword_len : ℕ
max_litlen_codeword_len = 14

abbrev pub deflate_max_offset_codeword_len : ℕ
deflate_max_offset_codeword_len = 15

abbrev pub deflate_max_pre_codeword_len : ℕ
deflate_max_pre_codeword_len = 7

abbrev pub deflate_num_litlen_syms : ℕ
deflate_num_litlen_syms = 288

abbrev pub deflate_num_offset_syms : ℕ
deflate_num_offset_syms = 32

abbrev pub extra_precode_bits : List ℕ
extra_precode_bits = 0 ∷ 0 ∷ 0 ∷ 0 ∷ 0 ∷ 0 ∷ 0 ∷ 0 ∷ 0 ∷ 0 ∷ 0 ∷ 0 ∷ 0 ∷ 0 ∷ 0 ∷ 0 ∷ 2 ∷ 3 ∷ 7 ∷ []

-- `while n > least && lens[n - 1] == 0`, from `n`; `at i` is `lens[i]`.
unfoldable pub trim : ℕ → (ℕ → ℕ) → ℕ → ℕ
trim least at zero = zero
trim least at (suc n) =
    let less = trim least at n in if ltb least (suc n) && (at n == 0) then less else suc n

-- The local variables of `write_dynamic_header_body` and of `dynamic_header_bits`, which start alike.
pub record DynamicHeader : Type 0 where
  pub num_litlen_syms : ℕ
  pub num_offset_syms : ℕ
  pub precode : Written
  pub precode_lens : List ℕ
  pub precode_codewords : List ℕ
  pub num_explicit_lens : ℕ

-- `for &perm in ..`
unfoldable pub write_precode_lens : OutputBitstream → List ℕ → List ℕ → OutputBitstream
write_precode_lens os precode_lens [] = os
write_precode_lens os precode_lens (perm ∷ perms) =
    write_precode_lens (flush_bits (add_bits os (get_or precode_lens perm 0) 3)) precode_lens perms

-- `for &item in ..`
unfoldable pub write_items : OutputBitstream → List ℕ → List ℕ → List ℕ → OutputBitstream
write_items os codewords lens [] = os
write_items os codewords lens (item ∷ items) =
    let sym = bit_and item 0x1f in
    let coded = add_bits os (get_or codewords sym 0) (get_or lens sym 0) in
    write_items (flush_bits (add_bits coded (item / 2 ^ 5) (get_or extra_precode_bits sym 0)))
      codewords lens items

unfoldable pub write_header : OutputBitstream → DynamicHeader → OutputBitstream
write_header os h =
    let litlen = add_bits os (h.num_litlen_syms - 257) 5 in
    let offset = add_bits litlen (h.num_offset_syms - 1) 5 in
    let explicit = flush_bits (add_bits offset (h.num_explicit_lens - 4) 4) in
    let lens =
      write_precode_lens explicit h.precode_lens
        (take h.num_explicit_lens precode_lens_permutation) in
    write_items lens h.precode_codewords h.precode_lens h.precode.items

-- `bits += freq * (EXTRA_PRECODE_BITS[sym] as u32 + len as u32)`, symbol by symbol
unfoldable pub add_symbol_bits : ℕ → List ℕ → List ℕ → List ℕ → ℕ
add_symbol_bits bits [] lens extra = bits
add_symbol_bits bits (freq ∷ freqs) [] extra = bits
add_symbol_bits bits (freq ∷ freqs) (len ∷ lens) [] = bits
add_symbol_bits bits (freq ∷ freqs) (len ∷ lens) (e ∷ extra) =
    add_symbol_bits (add32 bits (mul32 freq (add32 e len))) freqs lens extra

unfoldable pub header_bits : DynamicHeader → ℕ
header_bits h =
    add_symbol_bits (5 + 5 + 4 + 3 * h.num_explicit_lens) h.precode.precode_freqs h.precode_lens
      extra_precode_bits

module _ {ℓ} {E : Type ℓ} where
  unfoldable pub dynamic_header : DeflateCodes → Outcome E DynamicHeader
  dynamic_header codes =
      let num_litlen_syms = trim 257 (λ i. get_or codes.lens_litlen i 0) deflate_num_litlen_syms in
      let num_offset_syms = trim 1 (λ i. get_or codes.lens_offset i 0) deflate_num_offset_syms in
      let combined_lens =
        take num_litlen_syms codes.lens_litlen ++ take num_offset_syms codes.lens_offset in
      (do
        precode ← compute_precode_items combined_lens
        (precode_lens, precode_codewords) ←
            make_huffman_code 19 deflate_max_pre_codeword_len precode.precode_freqs (replicate 19 0)
              (replicate 19 0)
        ok record {
          num_litlen_syms = num_litlen_syms;
          num_offset_syms = num_offset_syms;
          precode = precode;
          precode_lens = precode_lens;
          precode_codewords = precode_codewords;
          num_explicit_lens =
              trim 4 (λ i. get_or precode_lens (get_or precode_lens_permutation i 0) 0) 19;
        })

  unfoldable pub write_dynamic_header_body :
      OutputBitstream → DeflateCodes → Outcome E OutputBitstream
  write_dynamic_header_body os codes = do header ← dynamic_header codes; ok (write_header os header)

  unfoldable pub dynamic_header_bits : DeflateCodes → Outcome E ℕ
  dynamic_header_bits codes = do header ← dynamic_header codes; ok (header_bits header)

  unfoldable pub make_huffman_codes : DeflateFreqs → DeflateCodes → Outcome E DeflateCodes
  make_huffman_codes freqs codes = do
    (lens_litlen, codewords_litlen) ←
        make_huffman_code deflate_num_litlen_syms max_litlen_codeword_len freqs.litlen
          codes.lens_litlen codes.codewords_litlen
    (lens_offset, codewords_offset) ←
        make_huffman_code deflate_num_offset_syms deflate_max_offset_codeword_len freqs.offset
          codes.lens_offset codes.codewords_offset
    ok record {
      codewords_litlen = codewords_litlen;
      codewords_offset = codewords_offset;
      lens_litlen = lens_litlen;
      lens_offset = lens_offset;
    }

  -- `init_static_codes`, which leaves its frequencies in `freqs` too
  unfoldable pub init_static_codes : DeflateCodes → Outcome E (DeflateFreqs × DeflateCodes)
  init_static_codes codes =
      let freqs : DeflateFreqs = record {
        litlen =
            replicate 144 (2 ^ (9 - 8))
            ++ (replicate 112 (2 ^ (9 - 9))
                ++ (replicate 24 (2 ^ (9 - 7)) ++ replicate 8 (2 ^ (9 - 8))));
        offset = replicate 32 (2 ^ (5 - 5));
      } in
      make_huffman_codes freqs codes >>= (λ codes. ok (freqs, codes))
