-- ===== src/Outcome.antt =====
-- src/error.rs: the errors, and what a call of the library comes to. A `StopReason` belongs to the
-- crate `enough`, so it is a parameter.
use zenflate.Prelude.{ℕ, zero, suc, List, [], ◌∷◌, length, set, ltb, if◌then◌else◌}

pub data CompressionError {ℓ} (R : Type ℓ) : Type ℓ where
  insufficient_space : CompressionError R
  stopped : R → CompressionError R

pub data DecompressionError {ℓ} (R : Type ℓ) : Type ℓ where
  bad_data : DecompressionError R
  invalid_header : DecompressionError R
  checksum_mismatch : DecompressionError R
  insufficient_space : DecompressionError R
  output_limit_exceeded : DecompressionError R
  stall_limit_exceeded : DecompressionError R
  stopped : R → DecompressionError R

-- `panic` is a slice index out of bounds. `out_of_fuel` is no value of the source: a loop of the
-- model had fewer rounds than the source's loop makes.
pub data Outcome {ℓ κ} (E : Type ℓ) (A : Type κ) : Type (ℓ ⊔ κ) where
  ok : A → Outcome E A
  err : E → Outcome E A
  panic : Outcome E A
  out_of_fuel : Outcome E A

infixl 5 ◌>>=◌
abbrev pub ◌>>=◌ {ℓ κ μ} :
    {E : Type ℓ} {A : Type κ} {B : Type μ} → Outcome E A → (A → Outcome E B) → Outcome E B
ok a >>= f = f a
err e >>= f = err e
panic >>= f = panic
out_of_fuel >>= f = out_of_fuel

-- `slice[i]` and `slice[i] = v`, with their bounds checks.
unfoldable pub read {ℓ} : {E : Type ℓ} → List ℕ → ℕ → Outcome E ℕ
read [] i = panic
read (x ∷ xs) zero = ok x
read (x ∷ xs) (suc i) = read xs i

unfoldable pub store {ℓ} : {E : Type ℓ} → List ℕ → ℕ → ℕ → Outcome E (List ℕ)
store xs i v = if ltb i (length xs) then ok (set xs i v) else panic
