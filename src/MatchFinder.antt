-- ===== src/MatchFinder.antt =====
-- src/matchfinder/mod.rs: the extension of a match a word at a time.
pub mod Zeros
pub mod Matching
pub mod Extend
use zenflate.Prelude.{
  ℕ, zero, suc, ◌+◌, ◌-◌, ◌*◌, ◌/◌, ◌%◌, ◌^◌, min, bit_xor, List, [], ◌∷◌, length, leb, ltb, ◌==◌,
  not, ◌||◌, if◌then◌else◌,
}
use zenflate.Decompress.Refill.{load_u64_le}
use zenflate.Outcome.{Outcome, ok, panic, out_of_fuel, read, ◌>>=◌}

-- `trailing_zeros` of a word of `n` bits.
unfoldable pub trailing_zeros : ℕ → ℕ → ℕ
trailing_zeros zero v = 0
trailing_zeros (suc n) v = let more = trailing_zeros n (v / 2) in if v % 2 == 0 then suc more else 0

module _ {ℓ} {E : Type ℓ} where
  -- `while len < max && strptr[len] == matchptr[len]`
  unfoldable pub extend_bytes : ℕ → List ℕ → List ℕ → ℕ → ℕ → Outcome E ℕ
  extend_bytes zero strptr matchptr len max = out_of_fuel
  extend_bytes (suc fuel) strptr matchptr len max =
      if not (ltb len max)
      then ok len
      else read strptr len >>= λ a. read matchptr len >>= λ b.
          if a == b then extend_bytes fuel strptr matchptr (len + 1) max else ok len

  -- `load_u64_le` of both, in bounds.
  unfoldable pub load_xor : List ℕ → List ℕ → ℕ → Outcome E ℕ
  load_xor strptr matchptr off =
      if ltb (length strptr) (off + 8) || ltb (length matchptr) (off + 8)
      then panic
      else ok (bit_xor (load_u64_le strptr off) (load_u64_le matchptr off))

  -- `while len + 8 <= max`, and the loop over the bytes behind it.
  unfoldable pub extend_words : ℕ → List ℕ → List ℕ → ℕ → ℕ → Outcome E ℕ
  extend_words zero strptr matchptr len max = out_of_fuel
  extend_words (suc fuel) strptr matchptr len max =
      if not (leb (len + 8) max)
      then extend_bytes (suc fuel) strptr matchptr len max
      else load_xor strptr matchptr len >>= λ xor.
          if not (xor == 0)
          then ok (min (len + trailing_zeros 64 xor / 2 ^ 3) max)
          else extend_words fuel strptr matchptr (len + 8) max

  unfoldable pub lz_extend_word : List ℕ → List ℕ → ℕ → ℕ → Outcome E ℕ
  lz_extend_word strptr matchptr start_len max_len =
      extend_words (max_len + 1) strptr matchptr start_len max_len
