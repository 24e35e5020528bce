-- ===== src/Compress/Precode/Expand.antt =====
-- What the items of src/compress/block.rs stand for: a decoder's view of them, item by item.
use zenflate.Prelude.{
  ℕ, zero, suc, ◌+◌, ◌-◌, ◌*◌, ◌/◌, ◌%◌, ◌^◌, ◌≤◌, ◌<◌, bit_or, List, [], ◌∷◌, ◌++◌, length, get_or,
  set, replicate, All, ltb, ◌==◌, if◌then◌else◌, arith, ◌≡◌, refl, ap, ◌∙◌, All-append,
  length-append, length-set,
}
use zenflate.Prelude.Bits.{bit_or_disjoint}
use zenflate.Prelude.Words.{add32, shl32}
use zenflate.Compress.Precode.{Written, emit, run_item}

-- The length before a run of code 16; where there is none, 16, which is no length.
abbrev pub last : List ℕ → ℕ
last done = get_or done (length done - 1) 16

-- The codeword lengths `done` with those of one more item. A symbol below 16 is a length; 16 repeats
-- the last length, and 17 and 18 are runs of zeros.
abbrev pub expand_item : List ℕ → ℕ → List ℕ
expand_item done item =
    let symbol = item % 32 in
    let extra = item / 32 in
    if ltb symbol 16
    then done ++ (symbol ∷ [])
    else if symbol == 16
    then done ++ replicate (3 + extra) (last done)
    else if symbol == 17
    then done ++ replicate (3 + extra) 0
    else done ++ replicate (11 + extra) 0

abbrev pub expand : List ℕ → List ℕ → List ℕ
expand done [] = done
expand done (item ∷ items) = expand (expand_item done item) items

-- How many items have the symbol `s`.
abbrev pub symbol_count : ℕ → List ℕ → ℕ
symbol_count s [] = 0
symbol_count s (item ∷ items) = (if item % 32 == s then 1 else 0) + symbol_count s items

-- The symbol and the extra bits fit the fields of the format: 2, 3 and 7 bits for the runs.
abbrev pub IsItem : ℕ → Type 0
IsItem item =
    (item % 32 < 19)
    × (item / 32 < (
        if ltb (item % 32) 16
        then 1
        else if item % 32 == 16
        then 4
        else if item % 32 == 17
        then 8
        else 128))

expand-append : (xs ys done : List ℕ) → expand done (xs ++ ys) ≡ expand (expand done xs) ys
expand-append [] ys done = refl
expand-append (x ∷ xs) ys done = expand-append xs ys (expand_item done x)

symbol_count-append :
    (s : ℕ) (xs ys : List ℕ) → symbol_count s (xs ++ ys) ≡ symbol_count s xs + symbol_count s ys
symbol_count-append s [] ys = omega arith
symbol_count-append s (x ∷ xs) ys = omega (arith, symbol_count-append s xs ys)

symbol_count-length : (s : ℕ) (xs : List ℕ) → symbol_count s xs ≤ length xs
symbol_count-length s [] = omega arith
symbol_count-length s (x ∷ xs) = ground (arith, symbol_count-length s xs)

-- The items that are written stand for the lengths `done`, fit their fields, are counted, and are no
-- more than the lengths.
pub record Stands (done : List ℕ) (w : Written) : Type 0 where
  pub lens : expand [] w.items ≡ done
  pub fields : All IsItem w.items
  pub size : length w.precode_freqs ≡ 19
  pub freqs : (s : ℕ) → s < 19 → get_or w.precode_freqs s 0 ≡ symbol_count s w.items
  pub few : length w.items ≤ length done

get_or-bump :
    (xs : List ℕ) (i b v : ℕ)
    → i < length xs
    → v ≡ get_or xs i 0 + 1
    → get_or (set xs i v) b 0 ≡ get_or xs b 0 + (if i == b then 1 else 0)
get_or-bump [] i b v h e = absurd (omega (arith, h))
get_or-bump (x ∷ xs) zero zero v h e = omega (arith, e)
get_or-bump (x ∷ xs) zero (suc b) v h e = ground arith
get_or-bump (x ∷ xs) (suc i) zero v h e = ground arith
get_or-bump (x ∷ xs) (suc i) (suc b) v h e =
    ground (arith, get_or-bump xs i b v (omega (arith, h)) e)

-- One more item.
pub emit-Stands :
    (done next : List ℕ) (s item : ℕ) (w : Written)
    → item % 32 ≡ s
    → IsItem item
    → expand_item done item ≡ next
    → length done < length next
    → length done < 2 ^ 31
    → Stands done w
    → Stands next (emit s item w)
unfolding emit
emit-Stands done next s item w same ok_item e longer small v =
    let small_symbol : s < 19 = omega (arith, same, ok_item.0) in
    let old = get_or w.precode_freqs s 0 in
    let bumped : add32 old 1 ≡ old + 1 =
      omega (arith, v.freqs s small_symbol, symbol_count-length s w.items, v.few, small) in
    record {
      lens = expand-append w.items (item ∷ []) [] ∙ ap (λ t. expand_item t item) v.lens ∙ e;
      fields = All-append IsItem w.items (item ∷ []) v.fields (ok_item, tt);
      size = length-set w.precode_freqs s (add32 old 1) ∙ v.size;
      freqs = λ b h.
          let count = symbol_count-append b w.items (item ∷ []) in
          let change =
            get_or-bump w.precode_freqs s b (add32 old 1) (omega (arith, small_symbol, v.size))
              bumped in
          ground (arith, count, change, v.freqs b h, same);
      few = omega (arith, length-append w.items (item ∷ []), v.few, longer);
    }

-- The parts of an item.
pub run_item-eq : (s extra : ℕ) → s < 32 → extra < 128 → run_item s extra ≡ s + extra * 32
unfolding run_item
run_item-eq s extra h g =
    let e : shl32 extra 5 ≡ extra * 2 ^ 5 = omega (arith, g) in
    ap (bit_or s) e ∙ bit_or_disjoint 5 s extra h
