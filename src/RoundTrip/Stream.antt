-- ===== src/RoundTrip/Stream.antt =====
-- The block loop of src/decompress/mod.rs on a stream of stored blocks.
use zenflate.Prelude.{
  ℕ, zero, suc, ◌+◌, ◌*◌, ◌≤◌, ◌<◌, Option, none, List, [], ◌∷◌, ◌++◌, length, take, All, true,
  false, arith, ◌≡◌, refl, ap, ◌∙◌, sym, length-append, append_assoc, append_empty, take_all,
}
use zenflate.Prelude.Buffer.{length-write, take-write}
use zenflate.Prelude.Words.{IsByte}
use zenflate.Outcome.{ok, DecompressionError}
use zenflate.Decompress.Refill.Window.{Reads}
use zenflate.Decompress.State.{Run}
use zenflate.Decompress.Inflate.{blocks}
use zenflate.Compress.Stored.Blocks.{none_left}
use zenflate.Compress.Stored.Level0.{join}
use zenflate.RoundTrip.Align.{at_byte, at_byte-Reads}
use zenflate.RoundTrip.Block.{IsStoredBlock, IsStoredBlock-end, stored, checked, block-stored}

-- A run from `s` took the input up to the byte `k`, and put `bytes` behind the output of `s`.
pub record Decoded (s : Run) (k : ℕ) (bytes : List ℕ) (s' : Run) : Type 0 where
  pub taken : s'.bits ≡ at_byte k
  pub put : s'.out_pos ≡ s.out_pos + length bytes
  pub room : length s'.output ≡ length s.output
  pub policy : s'.d.checksum ≡ s.d.checksum
  pub holds : take s'.out_pos s'.output ≡ take s.out_pos s.output ++ bytes

stored-Decoded :
    (s : Run) (k : ℕ) (c : List ℕ)
    → s.out_pos + length c ≤ length s.output
    → Decoded s (k + 4 + length c) c (stored (checked s) k c)
stored-Decoded s k c h = record {
  taken = refl;
  put = refl;
  room = length-write s.output s.out_pos c h;
  policy = refl;
  holds =
      take-write (length c) s.output s.out_pos c (omega arith) (omega arith)
      ∙ ap (λ t. take s.out_pos s.output ++ t) (take_all (length c) c (omega arith));
}

Decoded-then :
    (s t u : Run) (j k : ℕ) (xs ys : List ℕ)
    → Decoded s j xs t
    → Decoded t k ys u
    → Decoded s k (xs ++ ys) u
Decoded-then s t u j k xs ys v w = record {
  taken = w.taken;
  put = omega (arith, v.put, w.put, length-append xs ys);
  room = w.room ∙ v.room;
  policy = w.policy ∙ v.policy;
  holds = w.holds ∙ ap (λ l. l ++ ys) v.holds ∙ append_assoc (take s.out_pos s.output) xs ys;
}

Decoded-same :
    (s s' : Run) (j k : ℕ) (xs ys : List ℕ)
    → j ≡ k
    → xs ≡ ys
    → Decoded s j xs s'
    → Decoded s k ys s'
Decoded-same s s' j k xs ys e f v = record {
  taken = v.taken ∙ ap (λ (t : ℕ). at_byte t) e;
  put = v.put ∙ ap (λ l. s.out_pos + length l) f;
  room = v.room;
  policy = v.policy;
  holds = v.holds ∙ ap (λ l. take s.out_pos s.output ++ l) f;
}

-- A stream of stored blocks of these chunks, from the bit `i` of the input up to its byte `e`: the
-- last block is the final one, and a block begins at the byte behind the block before it.
abbrev pub StoredBlocks : List ℕ → ℕ → List (List ℕ) → ℕ → Type 0
StoredBlocks input i [] e = i ≡ 8 * e
StoredBlocks input i (c ∷ cs) e =
    (k : ℕ) × IsStoredBlock input i k (none_left cs) c
    × StoredBlocks input (8 * (k + 4 + length c)) cs e

-- There are fewer blocks than bits.
pub StoredBlocks-count :
    (input : List ℕ) (i : ℕ) (cs : List (List ℕ)) (e : ℕ)
    → StoredBlocks input i cs e
    → i ≤ 8 * length input
    → i + length cs ≤ 8 * length input
StoredBlocks-count input i [] e h le = omega (arith, le)
StoredBlocks-count input i (c ∷ cs) e (k, v, more) le =
    let total = IsStoredBlock-end input i k (none_left cs) c v in
    omega (
      arith,
      v.next_byte.0,
      StoredBlocks-count input (8 * (k + 4 + length c)) cs e more (omega (arith, total)),
    )

-- The loop decodes a stream of stored blocks, to its end, whatever stands behind it.
pub blocks-stored {ℓ} :
    (R : Type ℓ) (stop : ℕ → Option R) (input : List ℕ) (limit : ℕ) (err : DecompressionError R)
    (c : List ℕ) (cs : List (List ℕ)) (s : Run) (i e fuel : ℕ)
    → ((n : ℕ) → stop n ≡ none)
    → All IsByte input
    → Reads input i s.bits
    → StoredBlocks input i (c ∷ cs) e
    → s.out_pos + length (join (c ∷ cs)) ≤ limit
    → limit ≤ length s.output
    → length cs < fuel
    → (s' : Run) × (blocks stop input limit err fuel s ≡ (ok tt, s'))
      × Decoded s e (join (c ∷ cs)) s'
unfolding blocks
blocks-stored R stop input limit err c cs s i e zero go hb r h room in_range enough =
    absurd (omega arith)
blocks-stored R stop input limit err c [] s i e (suc fuel) go hb r (k, v, end) room in_range
      enough =
    let len = length-append c [] in
    (
      stored (checked s) k c,
      rw
          (block-stored R stop input c limit err s i k true (go s.checks) hb r v
            (omega (arith, len, room)) in_range)
          refl,
      Decoded-same s (stored (checked s) k c) (k + 4 + length c) e c (c ++ []) (omega (arith, end))
          (sym (append_empty c)) (stored-Decoded s k c (omega (arith, len, room, in_range))),
    )
blocks-stored R stop input limit err c (d ∷ ds) s i e (suc fuel) go hb r (k, v, more) room in_range
      enough =
    let len = length-append c (join (d ∷ ds)) in
    let total = IsStoredBlock-end input i k false c v in
    let t = stored (checked s) k c in
    let first = stored-Decoded s k c (omega (arith, len, room, in_range)) in
    let (s', eq, behind) =
      blocks-stored R stop input limit err d ds t (8 * (k + 4 + length c)) e fuel go hb
        (at_byte-Reads input (k + 4 + length c) total) more (omega (arith, len, room))
        (omega (arith, first.room, in_range)) (omega (arith, enough)) in
    (
      s',
      rw
          (block-stored R stop input c limit err s i k false (go s.checks) hb r v
            (omega (arith, len, room)) in_range)
          eq,
      Decoded-then s t s' (k + 4 + length c) e c (join (d ∷ ds)) first behind,
    )
