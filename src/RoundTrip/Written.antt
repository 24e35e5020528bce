-- ===== src/RoundTrip/Written.antt =====
-- The stream that `deflate_compress_none` of src/compress/mod.rs writes is a stream of stored blocks,
-- padded with zeros.
use zenflate.Prelude.{
  ℕ, ◌+◌, ◌-◌, ◌*◌, ◌/◌, ◌%◌, ◌^◌, ◌≤◌, List, [], ◌∷◌, ◌++◌, length, drop, get_or, All, Bool, true,
  false, if◌then◌else◌, arith, ◌≡◌, ap, ◌∙◌, sym, append_assoc, drop-drop, get_or-drop, drop-append,
}
use mathlib.Core.Path.{subst}
use native.Mathlib.Nat.{mod-eq_of_lt}
use zenflate.Prelude.Words.{IsByte, to_le_bytes}
use zenflate.Decompress.Refill.Number.{number, byte_at}
use zenflate.Compress.Stored.{block_header}
use zenflate.Compress.Stored.Blocks.{none_left, stored_stream}
use zenflate.Compress.Stored.Writes.{length-stored_stream}
use zenflate.Compress.Stored.Level0.{IsChunk}
use zenflate.RoundTrip.Block.{At, lens, flag, IsStoredBlock}
use zenflate.RoundTrip.Stream.{StoredBlocks}

block_header-eq : (b : Bool) (n : ℕ) → n ≤ 0xffff → block_header b n ≡ flag b ∷ lens n
unfolding block_header flag
block_header-eq b n h =
    ap (λ (t : ℕ). (if b then 1 else 0) ∷ (to_le_bytes 2 t ++ to_le_bytes 2 (65535 - t)))
      (mod-eq_of_lt (omega (arith, h)))

flag-low : (b : Bool) (x : ℕ) → flag b ≡ x % 2 ^ 8 → x % 2 ^ 3 ≡ flag b
unfolding flag
flag-low true x e = omega arith
flag-low false x e = omega arith

header-At :
    (input c rest : List ℕ) (j : ℕ) (b : Bool)
    → IsChunk c
    → At input j (block_header b (length c) ++ (c ++ rest))
    → At input j (flag b ∷ (lens (length c) ++ (c ++ rest)))
header-At input c rest j b small h =
    h ∙ ap (λ t. t ++ (c ++ rest)) (block_header-eq b (length c) small)

behind_header :
    (input c rest : List ℕ) (j : ℕ) (b : Bool)
    → At input j (flag b ∷ (lens (length c) ++ (c ++ rest)))
    → At input (j + 1) (lens (length c) ++ (c ++ rest))
behind_header input c rest j b h = sym (drop-drop j 1 input) ∙ ap (drop 1) h

behind_block :
    (input c rest : List ℕ) (k : ℕ)
    → At input k (lens (length c) ++ (c ++ rest))
    → At input (k + 4 + length c) rest
unfolding to_le_bytes
behind_block input c rest k h =
    sym (drop-drop (k + 4) (length c) input)
    ∙ ap (drop (length c)) (sym (drop-drop k 4 input) ∙ ap (drop 4) h)
    ∙ drop-append c rest

-- A block at a byte, as level 0 writes it.
written-IsStoredBlock :
    (input c rest : List ℕ) (j : ℕ) (b : Bool)
    → All IsByte input
    → IsChunk c
    → At input j (block_header b (length c) ++ (c ++ rest))
    → IsStoredBlock input (8 * j) (j + 1) b c
written-IsStoredBlock input c rest j b hb small h =
    let here = header-At input c rest j b small h in
    let first : get_or input j 0 ≡ flag b =
      let z : j + 0 ≡ j = omega arith in
      ap (λ (t : ℕ). get_or input t 0) (sym z)
      ∙ sym (get_or-drop j 0 input 0)
      ∙ ap (λ t. get_or t 0 0) here in
    record {
      header = flag-low b (number input / 2 ^ (8 * j)) (sym first ∙ byte_at input j hb);
      next_byte = (omega arith, omega arith);
      small = small;
      rest = rest;
      bytes = behind_header input c rest j b here;
    }

pub stored_stream-StoredBlocks :
    (input rest : List ℕ) (j : ℕ) (cs : List (List ℕ))
    → All IsByte input
    → All IsChunk cs
    → At input j (stored_stream true cs ++ rest)
    → StoredBlocks input (8 * j) cs (j + length (stored_stream true cs))
stored_stream-StoredBlocks input rest j [] hb small h = omega arith
stored_stream-StoredBlocks input rest j (c ∷ cs) hb (small, smalls) h =
    let more = stored_stream true cs in
    let hdr = block_header (none_left cs) (length c) in
    let here : At input j (hdr ++ (c ++ (more ++ rest))) =
      h ∙ append_assoc hdr (c ++ more) rest ∙ ap (λ t. hdr ++ t) (append_assoc c more rest) in
    let v = written-IsStoredBlock input c (more ++ rest) j (none_left cs) hb small here in
    let next : At input (j + 1 + 4 + length c) (more ++ rest) =
      behind_block input c (more ++ rest) (j + 1) (
        behind_header input c (more ++ rest) j (none_left cs)
          (header-At input c (more ++ rest) j (none_left cs) small here)) in
    (
      j + 1,
      v,
      subst (λ (t : ℕ). StoredBlocks input (8 * (j + 1 + 4 + length c)) cs t)
          (omega (arith, length-stored_stream true c cs))
          (stored_stream-StoredBlocks input rest (j + 1 + 4 + length c) cs hb smalls next),
    )
