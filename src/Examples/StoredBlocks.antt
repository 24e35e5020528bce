-- ===== src/Examples/StoredBlocks.antt =====
-- The theorems on the stored blocks of src/decompress/mod.rs at concrete inputs.
use zenflate.Prelude.{All, ℕ, Option, none, List, [], ◌∷◌, take, true, false, arith, ◌≡◌, refl}
use zenflate.Prelude.Words.{IsByte, to_le_bytes, from_le_bytes}
use zenflate.Outcome.{ok, bad_data}
use zenflate.Decompress.State.{Run}
use zenflate.Decompress.State
use zenflate.Decompress.Inflate.{block, deflate_decompress_core, start}
use zenflate.RoundTrip.Block.{flag, IsStoredBlock, stored, checked, block-stored}
use zenflate.RoundTrip.Level0.{deflate_decompress_core-stored}

abbrev go : ℕ → Option ℕ
go n = none

-- Two stored blocks with ones for padding, and a byte behind them.
abbrev padded : List ℕ
padded = 0xf8 ∷ 1 ∷ 0 ∷ 0xfe ∷ 0xff ∷ 7 ∷ 0x59 ∷ 1 ∷ 0 ∷ 0xfe ∷ 0xff ∷ 8 ∷ 9 ∷ []

padded-IsByte : All IsByte padded
padded-IsByte = (
  omega arith,
  (
    omega arith,
    (
      omega arith,
      (
        omega arith,
        (
          omega arith,
          (
            omega arith,
            (
              omega arith,
              (
                omega arith,
                (omega arith, (omega arith, (omega arith, (omega arith, (omega arith, tt))))),
              ),
            ),
          ),
        ),
      ),
    ),
  ),
)

first_block : IsStoredBlock padded 0 1 false (7 ∷ [])
unfolding flag to_le_bytes from_le_bytes
first_block = record {
  header = refl;
  next_byte = (omega arith, omega arith);
  small = omega arith;
  rest = 0x59 ∷ 1 ∷ 0 ∷ 0xfe ∷ 0xff ∷ 8 ∷ 9 ∷ [];
  bytes = refl;
}

last_block : IsStoredBlock padded 48 7 true (8 ∷ [])
unfolding flag to_le_bytes from_le_bytes
last_block = record {
  header = refl;
  next_byte = (omega arith, omega arith);
  small = omega arith;
  rest = 9 ∷ [];
  bytes = refl;
}

deflate_decompress_core-stored_example :
    (s : Run) × (deflate_decompress_core go padded (start State.new (0 ∷ 0 ∷ 0 ∷ []))
      ≡ (ok (12, 2), s))
    × (take 2 s.output ≡ 7 ∷ 8 ∷ [])
    × (s.d.checksum ≡ State.verify)
unfolding State.new
deflate_decompress_core-stored_example =
    deflate_decompress_core-stored ℕ go padded (7 ∷ []) ((8 ∷ []) ∷ []) 12 (0 ∷ 0 ∷ 0 ∷ [])
      State.new (λ n. refl) padded-IsByte (1, first_block, (7, last_block, refl)) refl (omega arith)

-- Six bits of another block stand before the header, which goes on into the second byte.
abbrev unaligned : List ℕ
unaligned = 0x3f ∷ 0xfe ∷ 1 ∷ 0 ∷ 0xfe ∷ 0xff ∷ 7 ∷ []

abbrev behind_bits : Run
behind_bits = record (start State.new (0 ∷ [])) {
  bits = record { bitbuf = 0; bitsleft = 2; in_pos = 1; overread_count = 0 };
}

block-stored_example :
    block go unaligned 1 bad_data behind_bits ≡ (ok false, stored (checked behind_bits) 2 (7 ∷ []))
unfolding flag to_le_bytes from_le_bytes
block-stored_example =
    block-stored ℕ go unaligned (7 ∷ []) 1 bad_data behind_bits 6 2 false refl
      (
        omega arith,
        (
          omega arith,
          (omega arith, (omega arith, (omega arith, (omega arith, (omega arith, tt))))),
        ),
      )
      record {
        held = 2;
        bits_held = omega arith;
        held_le = omega arith;
        window = refl;
        at = refl;
        bits_le = omega arith;
        pos_le = omega arith;
        past_end = λ _. refl;
      }
      record {
        header = refl;
        next_byte = (omega arith, omega arith);
        small = omega arith;
        rest = [];
        bytes = refl;
      }
      (omega arith) (omega arith)
