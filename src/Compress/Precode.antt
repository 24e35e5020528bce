-- ===== src/Compress/Precode.antt =====
-- src/compress/block.rs: the codeword lengths of a dynamic block as items of the precode, which are
-- the lengths and the runs of them. An item is a u32 with a symbol in its low five bits and the extra
-- bits of a run above.
pub mod Expand
pub mod Items
pub mod Runs
pub mod RoundTrip
use zenflate.Prelude.{
  ℕ, zero, suc, ◌+◌, ◌-◌, ◌*◌, ◌%◌, ◌^◌, min, bit_and, bit_or, Bool, true, false, not, ◌&&◌, ◌||◌,
  List, [], ◌∷◌, ◌++◌, length, get_or, set, drop, replicate, leb, ◌==◌, if◌then◌else◌,
}
use zenflate.Prelude.Words.{add32, shl32}
use zenflate.Outcome.{Outcome, ok, out_of_fuel, ◌>>=◌}

abbrev pub deflate_num_precode_syms : ℕ
deflate_num_precode_syms = 19

pub record PrecodeFlags : Type 0 where
  pub use_16 : Bool
  pub use_17 : Bool
  pub use_18 : Bool
  pub fuse_7 : Bool
  pub fuse_8 : Bool

abbrev pub default : PrecodeFlags
default = record { use_16 = true; use_17 = true; use_18 = true; fuse_7 = false; fuse_8 = false }

unfoldable pub from_bits : ℕ → PrecodeFlags
from_bits bits = record {
  use_16 = not (bit_and bits 1 == 0);
  use_17 = not (bit_and bits 2 == 0);
  use_18 = not (bit_and bits 4 == 0);
  fuse_7 = not (bit_and bits 8 == 0);
  fuse_8 = not (bit_and bits 16 == 0);
}

unfoldable pub is_valid : PrecodeFlags → Bool
is_valid flags = if (flags.fuse_7 || flags.fuse_8) && not flags.use_16 then false else true

-- `precode_freqs` and the items that are written to `precode_items`, the first `item_count` of it.
pub record Written : Type 0 where
  pub precode_freqs : List ℕ
  pub items : List ℕ

-- `precode_freqs[sym] += 1; precode_items[item_count] = item; item_count += 1`
unfoldable pub emit : ℕ → ℕ → Written → Written
emit sym item w = record {
  precode_freqs = set w.precode_freqs sym (add32 (get_or w.precode_freqs sym 0) 1);
  items = w.items ++ (item ∷ []);
}

-- `sym | (extra_bits << 5)`
unfoldable pub run_item : ℕ → ℕ → ℕ
run_item sym extra_bits = bit_or sym (shl32 extra_bits 5)

-- The run from `run_start` to `run_end`, as its length.
unfoldable pub run_length : ℕ → List ℕ → ℕ
run_length len [] = 0
run_length len (l ∷ lens) = let rest = run_length len lens in if l == len then suc rest else 0

-- `while run_start < run_end`
unfoldable pub emit_lens : ℕ → ℕ → Written → Written
emit_lens len zero w = w
emit_lens len (suc run) w = emit_lens len run (emit len len w)

module _ {ℓ} {E : Type ℓ} where
  -- `while run_end - run_start >= least`: what is left of the run.
  unfoldable pub emit_runs : ℕ → ℕ → ℕ → ℕ → ℕ → Written → Outcome E (ℕ × Written)
  emit_runs sym least most zero run w = out_of_fuel
  emit_runs sym least most (suc fuel) run w =
      let extra_bits = min (run - least) most in
      if not (leb least run)
      then ok (run, w)
      else emit_runs sym least most fuel (run - (least + extra_bits))
          (emit sym (run_item sym extra_bits) w)

  unfoldable pub zero_runs : PrecodeFlags → ℕ → Written → Outcome E Written
  zero_runs flags run w = do
    (left, w) ← if flags.use_18 then emit_runs 18 11 0x7f (run + 1) run w else ok (run, w)
    (left, w) ←
        if flags.use_17 && leb 3 left then emit_runs 17 3 0x7 (left + 1) left w else ok (left, w)
    ok (emit_lens 0 left w)

  unfoldable pub nonzero_runs : PrecodeFlags → ℕ → ℕ → Written → Outcome E Written
  nonzero_runs flags len run w =
      if flags.fuse_7 && run == 7
      then ok (emit 16 16 (emit 16 16 (emit len len w)))
      else if flags.fuse_8 && run == 8
      then ok (emit 16 16 (emit 16 (run_item 16 1) (emit len len w)))
      else if leb 4 run
      then (do
        (left, w) ← emit_runs 16 3 0x3 run (run - 1) (emit len len w)
        ok (emit_lens len left w))
      else ok (emit_lens len run w)

  unfoldable pub emit_run : PrecodeFlags → ℕ → ℕ → Written → Outcome E Written
  emit_run flags len run w =
      if len == 0
      then zero_runs flags run w
      else if flags.use_16
      then nonzero_runs flags len run w
      else ok (emit_lens len run w)

  -- `while run_start < num_lens`
  unfoldable pub items_loop : PrecodeFlags → ℕ → List ℕ → Written → Outcome E Written
  items_loop flags fuel [] w = ok w
  items_loop flags zero (len ∷ lens) w = out_of_fuel
  items_loop flags (suc fuel) (len ∷ lens) w = do
    w ← emit_run flags len (run_length len lens + 1) w
    items_loop flags fuel (drop (run_length len lens) lens) w

  unfoldable pub compute_precode_items_flagged : List ℕ → PrecodeFlags → Outcome E Written
  compute_precode_items_flagged lens flags =
      items_loop flags (length lens) lens
        record { precode_freqs = replicate deflate_num_precode_syms 0; items = [] }

  unfoldable pub compute_precode_items : List ℕ → Outcome E Written
  compute_precode_items lens = compute_precode_items_flagged lens default
