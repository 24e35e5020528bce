-- ===== src/Decompress/State.antt =====
-- The `Decompressor` of src/decompress/mod.rs, the local variables of
-- `deflate_decompress_core_impl`, and the actions on them. What was written before an error stays
-- written, so the state comes back beside it. The input slice and `stop` never change: they are
-- arguments. `stop` answers its n-th call.
use zenflate.Prelude.{ℕ, ◌+◌, Bool, true, false, Option, none, some, List, replicate, if◌then◌else◌}
use zenflate.Outcome.{Outcome, ok, err, panic, out_of_fuel, DecompressionError, stopped}
use zenflate.Decompress.Refill.{BitReader, refill_bits, consume}
use zenflate.Decompress.Tables.{
  num_precode_syms, precode_enough, lens_size, litlen_enough, offset_enough, num_litlen_syms_max,
}

pub data ChecksumPolicy : Type 0 where
  verify report ignore : ChecksumPolicy

pub record Decompressor : Type 0 where
  pub precode_lens : List ℕ
  pub precode_decode_table : List ℕ
  pub lens : List ℕ
  pub litlen_decode_table : List ℕ
  pub offset_decode_table : List ℕ
  pub sorted_syms : List ℕ
  pub static_codes_loaded : Bool
  pub litlen_tablebits : ℕ
  pub litlen_doubles : Bool
  pub checksum : ChecksumPolicy
  pub checksum_matched : Option Bool
  pub max_output_size : Option ℕ

unfoldable pub new : Decompressor
new = record {
  precode_lens = replicate num_precode_syms 0;
  precode_decode_table = replicate precode_enough 0;
  lens = replicate lens_size 0;
  litlen_decode_table = replicate litlen_enough 0;
  offset_decode_table = replicate offset_enough 0;
  sorted_syms = replicate num_litlen_syms_max 0;
  static_codes_loaded = false;
  litlen_tablebits = 0;
  litlen_doubles = false;
  checksum = verify;
  checksum_matched = none;
  max_output_size = none;
}

unfoldable pub reset_stream_state : Decompressor → Decompressor
reset_stream_state d = record d {
  static_codes_loaded = false;
  litlen_doubles = false;
  checksum_matched = none;
}

unfoldable pub with_max_output_size : Decompressor → Option ℕ → Decompressor
with_max_output_size d max = record d { max_output_size = max }

unfoldable pub with_checksum : Decompressor → ChecksumPolicy → Decompressor
with_checksum d policy = record d { checksum = policy }

unfoldable pub with_skip_checksum : Decompressor → Bool → Decompressor
unfolding with_checksum
with_skip_checksum d skip = with_checksum d (if skip then report else verify)

-- `checks` counts the calls of `stop.check()`.
pub record Run : Type 0 where
  pub d : Decompressor
  pub bits : BitReader
  pub output : List ℕ
  pub out_pos : ℕ
  pub checks : ℕ

abbrev pub Exec {ℓ} : Type ℓ → Type 0 → Type ℓ
Exec R A = Run → Outcome (DecompressionError R) A × Run

module _ {ℓ} {R : Type ℓ} where
  abbrev pub pure : {A : Type 0} → A → Exec R A
  pure a s = (ok a, s)

  abbrev pub fail : {A : Type 0} → DecompressionError R → Exec R A
  fail e s = (err e, s)

  -- A call that does not touch the state.
  abbrev pub lift : {A : Type 0} → Outcome (DecompressionError R) A → Exec R A
  lift r s = (r, s)

  abbrev pub gets : {A : Type 0} → (Run → A) → Exec R A
  gets f s = (ok (f s), s)

  abbrev pub modify : (Run → Run) → Exec R (Unit {0})
  modify f s = (ok tt, f s)

  abbrev pub continue :
      {A B : Type 0} → Outcome (DecompressionError R) A → (A → Exec R B) → Exec R B
  continue (ok a) f s = f a s
  continue (err e) f s = (err e, s)
  continue panic f s = (panic, s)
  continue out_of_fuel f s = (out_of_fuel, s)

  infixl 5 ◌>>=◌ ◌>>◌
  abbrev pub ◌>>=◌ : {A B : Type 0} → Exec R A → (A → Exec R B) → Exec R B
  ◌>>=◌ m f s = let (r, s') = m s in continue r f s'

  abbrev pub ◌>>◌ : {B : Type 0} → Exec R (Unit {0}) → Exec R B → Exec R B
  m >> n = m >>= λ _. n

  -- `if !test { return Err(e) }`
  abbrev pub ensure : Bool → DecompressionError R → Exec R (Unit {0})
  ensure true e = pure tt
  ensure false e = fail e

  -- `stop.check()?`
  unfoldable pub check : (ℕ → Option R) → Exec R (Unit {0})
  check stop s =
      let s' : Run = record s { checks = s.checks + 1 } in
      elim (stop s.checks) [ none ↦ (ok tt, s') | some reason ↦ (err (stopped reason), s') ]

  -- `refill_bits(…)?`. On its error the source's variables are not read again.
  unfoldable pub refill : List ℕ → Exec R (Unit {0})
  unfolding refill_bits
  refill input s = elim (refill_bits {R = R} s.bits input) [
    | ok bits ↦ (ok tt, record s { bits = bits })
    | err e ↦ (err e, s)
    | panic ↦ (panic, s)
    | out_of_fuel ↦ (out_of_fuel, s)
  ]

  -- `bitbuf >>= n; bitsleft -= n`
  unfoldable pub skip_bits : ℕ → Exec R (Unit {0})
  unfolding consume
  skip_bits n s = (ok tt, record s { bits = consume s.bits n })
