-- ===== src/Prelude/Buffer.antt =====
-- Byte slices that are written in place. A slice is a list of fixed length.
use Prim.Native.Nat.{ℕ, zero, suc, ◌+◌, ◌≤◌}
use mathlib.Core.Path.{◌≡◌, refl, ap, ◌∙◌}
use mathlib.Core.List.{List, [], ◌∷◌, ◌++◌}
use native.Mathlib.Omega.{arith}
use zenflate.Prelude.Lists.{
  length, take, drop, length-append, length-take, length-drop, take_all, append_assoc,
}

module _ {ℓ} {A : Type ℓ} where
  -- `buf[pos..pos + bytes.len()].copy_from_slice(bytes)`, where that is in bounds.
  unfoldable pub write : List A → ℕ → List A → List A
  write buf pos bytes = take pos buf ++ (bytes ++ drop (pos + length bytes) buf)

  pub length-write :
      (buf : List A) (pos : ℕ) (bytes : List A)
      → pos + length bytes ≤ length buf
      → length (write buf pos bytes) ≡ length buf
  unfolding write
  length-write buf pos bytes h = omega (
    arith,
    length-append (take pos buf) (bytes ++ drop (pos + length bytes) buf),
    length-append bytes (drop (pos + length bytes) buf),
    length-take pos buf,
    length-drop (pos + length bytes) buf,
  )

  pub take_prefix : (k : ℕ) (xs ys : List A) → k ≤ length xs → take k (xs ++ ys) ≡ take k xs
  take_prefix zero xs ys h = refl
  take_prefix (suc k) [] ys h = absurd (omega arith)
  take_prefix (suc k) (x ∷ xs) ys h = ap (λ t. x ∷ t) (take_prefix k xs ys (omega arith))

  take_past :
      (j k pos : ℕ) (buf rest : List A)
      → j ≡ pos + k
      → pos ≤ length buf
      → take j (take pos buf ++ rest) ≡ take pos buf ++ take k rest
  take_past j k zero buf rest e h = ap (λ t. take t rest) (e ∙ omega arith)
  take_past j k (suc pos) [] rest e h = absurd (omega arith)
  take_past zero k (suc pos) (x ∷ buf) rest e h = absurd (omega arith)
  take_past (suc j) k (suc pos) (x ∷ buf) rest e h =
      ap (λ t. x ∷ t) (take_past j k pos buf rest (omega arith) (omega arith))

  -- What stands before the end of a write, or before a point inside it.
  pub take-write :
      (k : ℕ) (buf : List A) (pos : ℕ) (bytes : List A)
      → pos ≤ length buf
      → k ≤ length bytes
      → take (pos + k) (write buf pos bytes) ≡ take pos buf ++ take k bytes
  unfolding write
  take-write k buf pos bytes h g =
      take_past (pos + k) k pos buf _ refl h
      ∙ ap (λ t. take pos buf ++ t) (take_prefix k bytes (drop (pos + length bytes) buf) g)

  -- Two writes, the second behind the first.
  pub take-write_twice :
      (buf : List A) (pos : ℕ) (xs ys : List A)
      → pos ≤ length buf
      → take (pos + length xs + length ys) (write (write buf pos xs) (pos + length xs) ys)
        ≡ take pos buf ++ (xs ++ ys)
  unfolding write
  take-write_twice buf pos xs ys h =
      let mid = write buf pos xs in
      let back = drop (pos + length xs) buf in
      let room : pos + length xs ≤ length mid = omega (
        arith,
        h,
        length-append (take pos buf) (xs ++ back),
        length-append xs back,
        length-take pos buf,
      ) in
      take-write (length ys) mid (pos + length xs) ys room (omega arith)
      ∙ ap (λ t. take (pos + length xs) mid ++ t) (take_all (length ys) ys (omega arith))
      ∙ ap (λ t. t ++ ys) (take-write (length xs) buf pos xs h (omega arith))
      ∙ ap (λ t. (take pos buf ++ t) ++ ys) (take_all (length xs) xs (omega arith))
      ∙ append_assoc (take pos buf) xs ys
