-- ===== src/Compress/Block/HeaderGroups.antt =====
-- The fields of the header of a dynamic block in src/compress/block.rs: each value fits its field.
use zenflate.Prelude.{
  ℕ, ◌%◌, ◌^◌, ◌≤◌, ◌<◌, List, [], ◌∷◌, length, take, get_or, All, All-append, All-get_or, ltb,
  ◌==◌, if◌then◌else◌, arith, ◌≡◌, refl,
}
use zenflate.Prelude.Bits.{agree_below, agree_below→eq}
use zenflate.Bitstream.Groups.{IsGroup}
use zenflate.Decompress.Tables.{precode_lens_permutation}
use zenflate.Compress.Huffman.Make.Prefix.{Code, code-lt}
use zenflate.Compress.Precode.Expand.{symbol_count, IsItem}
use zenflate.Compress.Block.{DynamicHeader, extra_precode_bits}
use zenflate.Compress.Block.HeaderFields.{len_groups, item_groups, header_groups, small_extra}

-- The symbols' lengths and the items, as a header has them.
pub record Sound (h : DynamicHeader) : Type 0 where
  pub stands : All IsItem h.precode.items
  pub freqs_size : length h.precode.precode_freqs ≡ 19
  pub freqs : (s : ℕ) → s < 19 → get_or h.precode.precode_freqs s 0 ≡ symbol_count s h.precode.items
  pub few : length h.precode.items ≤ 320
  pub code : Code 19 7 h.precode.precode_freqs (h.precode_lens, h.precode_codewords)
  pub litlen : h.num_litlen_syms ≤ 288
  pub offset : h.num_offset_syms ≤ 32
  pub explicit : h.num_explicit_lens ≤ 19

-- The extra bits of an item fit the field that its symbol has.
extra_bound :
    (s : ℕ)
    → s < 19
    → (if ltb s 16 then 1 else if s == 16 then 4 else if s == 17 then 8 else 128)
      ≡ 2 ^ get_or extra_precode_bits s 0
unfolding agree_below
extra_bound s h =
    agree_below→eq (λ s. if ltb s 16 then 1 else if s == 16 then 4 else if s == 17 then 8 else 128)
      (λ s. 2 ^ get_or extra_precode_bits s 0) 19 refl s h

symbols-All :
    (P : ℕ → Type 0) (items : List ℕ)
    → ((s : ℕ) → s < 19 → 0 < symbol_count s items → P s)
    → All IsItem items
    → All (λ (item : ℕ). P (item % 32)) items
symbols-All P [] h ok_items = tt
symbols-All P (item ∷ items) h ((low, high), ok_items) = (
  h (item % 32) low (ground arith),
  symbols-All P items (λ s l some. h s l (omega (arith, some))) ok_items,
)

item_groups-IsGroup :
    (codewords lens items : List ℕ)
    → All (λ (l : ℕ). l ≤ 7) lens
    → All IsItem items
    → All (λ (item : ℕ). get_or codewords (item % 32) 0 < 2 ^ get_or lens (item % 32) 0) items
    → All IsGroup (item_groups codewords lens items)
item_groups-IsGroup codewords lens [] short fields fits = tt
item_groups-IsGroup codewords lens (item ∷ items) short ((low, high), fields) (fit, fits) =
    let s = item % 32 in
    let len : get_or lens s 0 ≤ 7 = All-get_or (λ (l : ℕ). l ≤ 7) lens s 0 short (omega arith) in
    let extra : get_or extra_precode_bits s 0 ≤ 7 =
      All-get_or (λ (l : ℕ). l ≤ 7) extra_precode_bits s 0 small_extra (omega arith) in
    (
      (
        (
          (fit, omega (arith, len)),
          ((omega (arith, high, extra_bound s low), omega (arith, extra)), tt),
        ),
        omega (arith, len, extra),
      ),
      item_groups-IsGroup codewords lens items short fields fits,
    )

len_groups-IsGroup :
    (lens perms : List ℕ) → All (λ (l : ℕ). l ≤ 7) lens → All IsGroup (len_groups lens perms)
len_groups-IsGroup lens [] short = tt
len_groups-IsGroup lens (perm ∷ perms) short =
    let len : get_or lens perm 0 ≤ 7 =
      All-get_or (λ (l : ℕ). l ≤ 7) lens perm 0 short (omega arith) in
    ((((omega (arith, len), omega arith), tt), omega arith), len_groups-IsGroup lens perms short)

pub header_groups-IsGroup : (h : DynamicHeader) → Sound h → All IsGroup (header_groups h)
header_groups-IsGroup h v =
    let lens = h.precode_lens in
    let words = h.precode_codewords in
    let items = h.precode.items in
    let perms = take h.num_explicit_lens precode_lens_permutation in
    (
      (
        (
          (omega (arith, v.litlen), omega arith),
          ((omega (arith, v.offset), omega arith), ((omega (arith, v.explicit), omega arith), tt)),
        ),
        omega arith,
      ),
      All-append IsGroup (len_groups lens perms) (item_groups words lens items)
          (len_groups-IsGroup lens perms v.code.short)
          (item_groups-IsGroup words lens items v.code.short v.stands (
            symbols-All (λ s. get_or words s 0 < 2 ^ get_or lens s 0) items
              (λ s l some.
                code-lt 19 7 h.precode.precode_freqs (lens, words) s v.code (omega arith)
                  (omega arith) (omega arith) l
                  (v.code.used s l (omega (arith, some, v.freqs s l))))
              v.stands)),
    )
