-- ===== src/Compress/Block/HeaderFields.antt =====
-- The fields of the header of a dynamic block in src/compress/block.rs, and their bits.
use zenflate.Prelude.{
  ℕ, zero, suc, ◌+◌, ◌-◌, ◌*◌, ◌/◌, ◌%◌, ◌^◌, ◌≤◌, ◌<◌, List, [], ◌∷◌, ◌++◌, length, take, get_or,
  All, All-get_or, leb, ◌==◌, ◌&&◌, Bool, true, if◌then◌else◌, arith, ◌≡◌, refl, sym, ap, ◌∙◌, inl,
  inr, Bool-cases, leb→le, le→leb, ==_iff,
}
use mathlib.Core.Path.{subst}
use mathlib.Core.Bool.{true≢false}
use zenflate.Prelude.Arith.{suc_mul}
use zenflate.Prelude.Bits.{bit_and_mask}
use zenflate.Prelude.Words.{add32, mul32}
use zenflate.Bitstream.{OutputBitstream, add_bits, flush_bits}
use zenflate.Bitstream.Fields.{Field, width}
use zenflate.Bitstream.Groups.{put_groups, flat, put_groups-append}
use zenflate.Decompress.Tables.{precode_lens_permutation}
use zenflate.Compress.Precode.Expand.{symbol_count}
use zenflate.Compress.Block.{
  DynamicHeader, extra_precode_bits, trim, write_precode_lens, write_items, write_header,
  add_symbol_bits,
}

-- The fields of the header, as the format has them, with a group for each flush.
abbrev pub len_groups : List ℕ → List ℕ → List (List Field)
len_groups lens [] = []
len_groups lens (perm ∷ perms) = ((get_or lens perm 0, 3) ∷ []) ∷ len_groups lens perms

abbrev pub item_groups : List ℕ → List ℕ → List ℕ → List (List Field)
item_groups codewords lens [] = []
item_groups codewords lens (item ∷ items) =
    ((get_or codewords (item % 32) 0, get_or lens (item % 32) 0)
      ∷ (item / 32, get_or extra_precode_bits (item % 32) 0)
      ∷ [])
    ∷ item_groups codewords lens items

abbrev pub header_groups : DynamicHeader → List (List Field)
header_groups h =
    ((h.num_litlen_syms - 257, 5) ∷ (h.num_offset_syms - 1, 5) ∷ (h.num_explicit_lens - 4, 4) ∷ [])
    ∷ (len_groups h.precode_lens (take h.num_explicit_lens precode_lens_permutation)
        ++ item_groups h.precode_codewords h.precode_lens h.precode.items)

write_precode_lens-eq :
    (os : OutputBitstream) (lens perms : List ℕ)
    → write_precode_lens os lens perms ≡ put_groups os (len_groups lens perms)
unfolding write_precode_lens
write_precode_lens-eq os lens [] = refl
write_precode_lens-eq os lens (perm ∷ perms) =
    write_precode_lens-eq (flush_bits (add_bits os (get_or lens perm 0) 3)) lens perms

write_items-eq :
    (os : OutputBitstream) (codewords lens items : List ℕ)
    → write_items os codewords lens items ≡ put_groups os (item_groups codewords lens items)
unfolding write_items
write_items-eq os codewords lens [] = refl
write_items-eq os codewords lens (item ∷ items) = rw (bit_and_mask 5 item) (
    write_items-eq
      (flush_bits (
        add_bits (add_bits os (get_or codewords (item % 32) 0) (get_or lens (item % 32) 0))
          (item / 32) (get_or extra_precode_bits (item % 32) 0)))
      codewords lens items)

pub write_header-eq :
    (os : OutputBitstream) (h : DynamicHeader) → write_header os h ≡ put_groups os (header_groups h)
unfolding write_header
write_header-eq os h =
    let litlen = add_bits os (h.num_litlen_syms - 257) 5 in
    let offset = add_bits litlen (h.num_offset_syms - 1) 5 in
    let explicit = flush_bits (add_bits offset (h.num_explicit_lens - 4) 4) in
    let perms = take h.num_explicit_lens precode_lens_permutation in
    let lens = len_groups h.precode_lens perms in
    write_items-eq (write_precode_lens explicit h.precode_lens perms) h.precode_codewords
      h.precode_lens h.precode.items
    ∙ ap (λ t. put_groups t (item_groups h.precode_codewords h.precode_lens h.precode.items))
        (write_precode_lens-eq explicit h.precode_lens perms)
    ∙ sym (
        put_groups-append explicit lens
          (item_groups h.precode_codewords h.precode_lens h.precode.items))

-- How many bits an item takes.
abbrev pub item_bits : List ℕ → ℕ → ℕ
item_bits lens item = get_or lens (item % 32) 0 + get_or extra_precode_bits (item % 32) 0

abbrev pub items_bits : List ℕ → List ℕ → ℕ
items_bits lens [] = 0
items_bits lens (item ∷ items) = item_bits lens item + items_bits lens items

pub width-len_groups :
    (lens perms : List ℕ) → width (flat (len_groups lens perms)) ≡ 3 * length perms
width-len_groups lens [] = refl
width-len_groups lens (perm ∷ perms) = omega (arith, width-len_groups lens perms)

pub width-item_groups :
    (codewords lens items : List ℕ)
    → width (flat (item_groups codewords lens items)) ≡ items_bits lens items
width-item_groups codewords lens [] = refl
width-item_groups codewords lens (item ∷ items) =
    omega (arith, width-item_groups codewords lens items)

-- The bits of the symbols from `s` on, as the frequencies count them.
abbrev pub counted_bits : ℕ → List ℕ → List ℕ → List ℕ → ℕ
counted_bits s items [] extra = 0
counted_bits s items (len ∷ lens) [] = 0
counted_bits s items (len ∷ lens) (e ∷ extra) =
    symbol_count s items * (e + len) + counted_bits (s + 1) items lens extra

abbrev bits_from : ℕ → List ℕ → List ℕ → ℕ → ℕ
bits_from s lens extra symbol =
    if leb s symbol then get_or lens (symbol - s) 0 + get_or extra (symbol - s) 0 else 0

-- The first symbol's share.
one_more :
    (symbol s l x count rest rest' found : ℕ)
    → symbol ≡ s
    → rest ≡ rest' + (if leb (s + 1) symbol then found else 0)
    → (1 + count) * (x + l) + rest ≡ count * (x + l) + rest' + (l + x)
one_more symbol s l x count rest rest' found z e =
    let none : rest ≡ rest' = ground (arith, e, z) in
    omega (arith, none, suc_mul count (x + l), ap (λ (t : ℕ). t * (x + l)) (plus_one count))
  where
    plus_one : (n : ℕ) → 1 + n ≡ suc n
    plus_one n = omega arith

counted_bits-cons :
    (s item : ℕ) (items lens extra : List ℕ)
    → length lens ≡ length extra
    → counted_bits s (item ∷ items) lens extra
      ≡ counted_bits s items lens extra + bits_from s lens extra (item % 32)
counted_bits-cons s item items [] [] e = ground arith
counted_bits-cons s item items [] (x ∷ extra) e = absurd (omega (arith, e))
counted_bits-cons s item items (l ∷ lens) [] e = absurd (omega (arith, e))
counted_bits-cons s item items (l ∷ lens) (x ∷ extra) e =
    let symbol = item % 32 in
    let rest = counted_bits-cons (s + 1) item items lens extra (omega (arith, e)) in
    elim (Bool-cases (symbol == s)) [
      | inl t ↦
          let z : symbol ≡ s = (==_iff symbol s).0 t in
          let here : symbol - s ≡ 0 = omega (arith, z) in
          let found : get_or (l ∷ lens) (symbol - s) 0 + get_or (x ∷ extra) (symbol - s) 0 ≡ l + x =
            ap (λ (i : ℕ). get_or (l ∷ lens) i 0 + get_or (x ∷ extra) i 0) here in
          rw t (
            one_more symbol s l x (symbol_count s items)
              (counted_bits (s + 1) (item ∷ items) lens extra)
              (counted_bits (s + 1) items lens extra)
              (get_or lens (symbol - (s + 1)) 0 + get_or extra (symbol - (s + 1)) 0) z rest
            ∙ ground (arith, z, found))
      | inr t ↦ rw t (elim (Bool-cases (leb s symbol)) [
        | inr u ↦ ground (arith, rest, u)
        | inl u ↦
            let above : s < symbol = ground (arith, leb→le s symbol u, t) in
            let next : symbol - s ≡ suc (symbol - (s + 1)) = omega (arith, above) in
            let found : get_or (l ∷ lens) (symbol - s) 0 + get_or (x ∷ extra) (symbol - s) 0
                ≡ get_or lens (symbol - (s + 1)) 0 + get_or extra (symbol - (s + 1)) 0 =
              ap (λ (i : ℕ). get_or (l ∷ lens) i 0 + get_or (x ∷ extra) i 0) next in
            ground (arith, rest, above, found)
      ])
    ]

counted_bits-none : (s : ℕ) (lens extra : List ℕ) → counted_bits s [] lens extra ≡ 0
counted_bits-none s [] extra = refl
counted_bits-none s (l ∷ lens) [] = refl
counted_bits-none s (l ∷ lens) (x ∷ extra) = omega (arith, counted_bits-none (s + 1) lens extra)

pub counted_bits-items :
    (lens items : List ℕ)
    → length lens ≡ 19
    → counted_bits 0 items lens extra_precode_bits ≡ items_bits lens items
counted_bits-items lens [] whole = counted_bits-none 0 lens extra_precode_bits
counted_bits-items lens (item ∷ items) whole =
    let here : item % 32 - 0 ≡ item % 32 = omega arith in
    let found : bits_from 0 lens extra_precode_bits (item % 32) ≡ item_bits lens item =
      rw (le→leb 0 (item % 32) (omega arith))
        (ap (λ (i : ℕ). get_or lens i 0 + get_or extra_precode_bits i 0) here) in
    omega (
      arith,
      counted_bits-cons 0 item items lens extra_precode_bits whole,
      counted_bits-items lens items whole,
      found,
    )

-- The sum in the source does not wrap around.
pub add_symbol_bits-eq :
    (s bits : ℕ) (items freqs lens extra : List ℕ)
    → length freqs ≡ length lens
    → ((i : ℕ) → i < length lens → get_or freqs i 0 ≡ symbol_count (s + i) items)
    → bits + counted_bits s items lens extra < 2 ^ 32
    → All (λ (l : ℕ). l ≤ 7) lens
    → All (λ (x : ℕ). x ≤ 7) extra
    → add_symbol_bits bits freqs lens extra ≡ bits + counted_bits s items lens extra
unfolding add_symbol_bits
add_symbol_bits-eq s bits items [] [] extra same count small h g = omega arith
add_symbol_bits-eq s bits items [] (l ∷ lens) extra same count small h g =
    absurd (omega (arith, same))
add_symbol_bits-eq s bits items (f ∷ freqs) [] extra same count small h g =
    absurd (omega (arith, same))
add_symbol_bits-eq s bits items (f ∷ freqs) (l ∷ lens) [] same count small h g = omega arith
add_symbol_bits-eq s bits items (f ∷ freqs) (l ∷ lens) (x ∷ extra) same count small (p, h) (q, g) =
    let start : s + 0 ≡ s = omega arith in
    let f_eq : f ≡ symbol_count s items =
      count 0 (omega arith) ∙ ap (λ (i : ℕ). symbol_count i items) start in
    let sum_eq : add32 x l ≡ x + l = omega (arith, p, q) in
    let product : f * (x + l) ≡ symbol_count s items * (x + l) = ap (λ (i : ℕ). i * (x + l)) f_eq in
    let product_eq : mul32 f (add32 x l) ≡ f * (x + l) =
      ap (λ (i : ℕ). f * i % 2 ^ 32) sum_eq ∙ omega (arith, product, small) in
    let next : add32 bits (mul32 f (add32 x l)) ≡ bits + f * (x + l) =
      ap (λ (i : ℕ). (bits + i) % 2 ^ 32) product_eq ∙ omega (arith, product, small) in
    let shift : (i : ℕ) → s + suc i ≡ s + 1 + i = λ i. omega arith in
    ap (λ (i : ℕ). add_symbol_bits i freqs lens extra) next
    ∙ add_symbol_bits-eq (s + 1) (bits + f * (x + l)) items freqs lens extra (omega (arith, same))
        (λ i l. count (suc i) (omega (arith, l)) ∙ ap (λ (j : ℕ). symbol_count j items) (shift i))
        (omega (arith, small, product)) h g
    ∙ omega (arith, product)

abbrev all_small : List ℕ → Bool
all_small [] = true
all_small (x ∷ xs) = leb x 7 && all_small xs

at_most_seven : (xs : List ℕ) → all_small xs ≡ true → All (λ (l : ℕ). l ≤ 7) xs
at_most_seven [] e = tt
at_most_seven (x ∷ xs) e = elim (Bool-cases (leb x 7)) [
  | inl t ↦ (leb→le x 7 t, at_most_seven xs (subst (λ (b : Bool). (b && all_small xs) ≡ true) t e))
  | inr t ↦ absurd (true≢false (sym (subst (λ (b : Bool). (b && all_small xs) ≡ true) t e)))
]

pub small_extra : All (λ (l : ℕ). l ≤ 7) extra_precode_bits
small_extra = at_most_seven extra_precode_bits refl

pub items_bits-le :
    (lens items : List ℕ) → All (λ (l : ℕ). l ≤ 7) lens → items_bits lens items ≤ 14 * length items
items_bits-le lens [] h = omega arith
items_bits-le lens (item ∷ items) h =
    let one : get_or lens (item % 32) 0 ≤ 7 =
      All-get_or (λ (l : ℕ). l ≤ 7) lens (item % 32) 0 h (omega arith) in
    let two : get_or extra_precode_bits (item % 32) 0 ≤ 7 =
      All-get_or (λ (l : ℕ). l ≤ 7) extra_precode_bits (item % 32) 0 small_extra (omega arith) in
    omega (arith, one, two, items_bits-le lens items h)

pub trim-le : (least : ℕ) (at : ℕ → ℕ) (n : ℕ) → trim least at n ≤ n
unfolding trim
trim-le least at zero = omega arith
trim-le least at (suc n) = ground (arith, trim-le least at n)
