-- ===== src/Examples/Matches.antt =====
-- The theorem on src/matchfinder/mod.rs at a concrete input.
use zenflate.Prelude.{ℕ, ◌+◌, List, [], ◌∷◌, arith, ◌≡◌, refl}
use zenflate.Outcome.{ok, read}
use zenflate.MatchFinder.{lz_extend_word, extend_words, extend_bytes, load_xor, trailing_zeros}
use zenflate.MatchFinder.Extend.{lz_extend_word-matching}
use zenflate.MatchFinder.Matching.{matching}
use zenflate.Decompress.Refill.{load_u64_le}
use zenflate.Prelude.Words.{from_le_bytes}

-- Ten bytes that differ in the last.
abbrev left : List ℕ
left = 1 ∷ 2 ∷ 3 ∷ 4 ∷ 5 ∷ 6 ∷ 7 ∷ 8 ∷ 9 ∷ 10 ∷ []

abbrev right : List ℕ
right = 1 ∷ 2 ∷ 3 ∷ 4 ∷ 5 ∷ 6 ∷ 7 ∷ 8 ∷ 9 ∷ 11 ∷ []

lz_extend_word-matching_example :
    lz_extend_word {E = ℕ} left right 1 10 ≡ ok (1 + matching 9 left right 1)
lz_extend_word-matching_example =
    lz_extend_word-matching ℕ left right 1 10
      (
        omega arith,
        (
          omega arith,
          (
            omega arith,
            (
              omega arith,
              (
                omega arith,
                (omega arith, (omega arith, (omega arith, (omega arith, (omega arith, tt))))),
              ),
            ),
          ),
        ),
      )
      (
        omega arith,
        (
          omega arith,
          (
            omega arith,
            (
              omega arith,
              (
                omega arith,
                (omega arith, (omega arith, (omega arith, (omega arith, (omega arith, tt))))),
              ),
            ),
          ),
        ),
      )
      (omega arith) (omega arith) (omega arith)

left-right : lz_extend_word {E = ℕ} left right 1 10 ≡ ok 9
unfolding lz_extend_word extend_words extend_bytes load_xor trailing_zeros load_u64_le from_le_bytes
    read
left-right = refl
