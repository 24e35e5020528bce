-- ===== src/Examples/Copies.antt =====
-- The theorems on the match copies of src/decompress/mod.rs at concrete inputs.
use zenflate.Prelude.{ℕ, List, [], ◌∷◌, replicate, arith, ◌≡◌, refl}
use zenflate.Outcome.{ok}
use zenflate.Decompress.Output.{fastloop_match_copy, generic_match_copy}
use zenflate.Decompress.Output.Copy.{Copied}
use zenflate.Decompress.Output.Fast.{fastloop_match_copy-Copied}
use zenflate.Decompress.Output.Generic.{generic_match_copy-Copied}

-- Two bytes, and room for a match of five and 32 bytes more.
abbrev output : List ℕ
output = 1 ∷ 2 ∷ replicate 37 0

fastloop_match_copy-Copied_example :
    (res : List ℕ) × (fastloop_match_copy {E = ℕ} output 2 0 5 2 ≡ ok res)
    × Copied output 2 2 39 5 res
fastloop_match_copy-Copied_example =
    fastloop_match_copy-Copied ℕ output 2 5 2 (omega arith) (omega arith) (omega arith)

generic_match_copy-Copied_example :
    (res : List ℕ) × (generic_match_copy {E = ℕ} (1 ∷ 2 ∷ 0 ∷ 0 ∷ 0 ∷ []) 2 3 2 ≡ ok res)
    × Copied (1 ∷ 2 ∷ 0 ∷ 0 ∷ 0 ∷ []) 2 2 5 3 res
generic_match_copy-Copied_example =
    generic_match_copy-Copied ℕ (1 ∷ 2 ∷ 0 ∷ 0 ∷ 0 ∷ []) 2 3 2 (omega arith) (omega arith)
      (omega arith)

repeats-copy :
    generic_match_copy {E = ℕ} (1 ∷ 2 ∷ 0 ∷ 0 ∷ 0 ∷ []) 2 3 2 ≡ ok (1 ∷ 2 ∷ 1 ∷ 2 ∷ 1 ∷ [])
unfolding generic_match_copy
repeats-copy = refl
