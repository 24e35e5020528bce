-- ===== src/Prelude/Range.antt =====
-- Tables filled by counting up.
use Prim.Native.Nat.{ℕ, zero, suc, ◌+◌, ◌-◌, ◌≤◌, ◌<◌}
use mathlib.Core.Path.{◌≡◌, refl, ap, ◌∙◌}
use mathlib.Core.List.{List, [], ◌∷◌, ◌++◌, map}
use native.Mathlib.Omega.{arith}
use zenflate.Prelude.Lists.{length, get_or, take, drop, length-take, get_or-drop}
use zenflate.Prelude.Buffer.{write}

-- `i, i + 1, …`, `n` of them
unfoldable pub range : ℕ → ℕ → List ℕ
range i zero = []
range i (suc n) = i ∷ range (i + 1) n

pub length-range : (i n : ℕ) → length (range i n) ≡ n
unfolding range
length-range i zero = refl
length-range i (suc n) = ap suc (length-range (i + 1) n)

pub get_or-range : (i n k d : ℕ) → k < n → get_or (range i n) k d ≡ i + k
unfolding range
get_or-range i zero k d h = absurd (omega arith)
get_or-range i (suc n) zero d h = omega arith
get_or-range i (suc n) (suc k) d h = get_or-range (i + 1) n k d (omega arith) ∙ omega arith

module _ {ℓ κ} {A : Type ℓ} {B : Type κ} (f : A → B) where
  pub length-map : (xs : List A) → length (map f xs) ≡ length xs
  length-map [] = refl
  length-map (x ∷ xs) = ap suc (length-map xs)

  pub get_or-map :
      (xs : List A) (k : ℕ) (d : B) (e : A)
      → k < length xs
      → get_or (map f xs) k d ≡ f (get_or xs k e)
  get_or-map [] k d e h = absurd (omega arith)
  get_or-map (x ∷ xs) zero d e h = refl
  get_or-map (x ∷ xs) (suc k) d e h = get_or-map xs k d e (omega arith)

module _ {ℓ} {A : Type ℓ} where
  pub get_or-append_front :
      (xs ys : List A) (k : ℕ) (d : A) → k < length xs → get_or (xs ++ ys) k d ≡ get_or xs k d
  get_or-append_front [] ys k d h = absurd (omega arith)
  get_or-append_front (x ∷ xs) ys zero d h = refl
  get_or-append_front (x ∷ xs) ys (suc k) d h = get_or-append_front xs ys k d (omega arith)

  pub get_or-append_back :
      (xs ys : List A) (k : ℕ) (d : A) → get_or (xs ++ ys) (length xs + k) d ≡ get_or ys k d
  get_or-append_back [] ys k d = let e : 0 + k ≡ k = omega arith in ap (λ (t : ℕ). get_or ys t d) e
  get_or-append_back (x ∷ xs) ys k d =
      let e : length (x ∷ xs) + k ≡ suc (length xs + k) = omega arith in
      ap (λ (t : ℕ). get_or (x ∷ (xs ++ ys)) t d) e ∙ get_or-append_back xs ys k d

  pub get_or-take : (n i : ℕ) (xs : List A) (d : A) → i < n → get_or (take n xs) i d ≡ get_or xs i d
  get_or-take zero i xs d h = absurd (omega arith)
  get_or-take (suc n) i [] d h = refl
  get_or-take (suc n) zero (x ∷ xs) d h = refl
  get_or-take (suc n) (suc i) (x ∷ xs) d h = get_or-take n i xs d (omega arith)

  -- The places before, in and behind a write.
  pub get_or-write_before :
      (buf : List A) (pos : ℕ) (bytes : List A) (k : ℕ) (d : A)
      → k < pos
      → pos ≤ length buf
      → get_or (write buf pos bytes) k d ≡ get_or buf k d
  unfolding write
  get_or-write_before buf pos bytes k d h fits =
      get_or-append_front (take pos buf) (bytes ++ drop (pos + length bytes) buf) k d
        (omega (arith, h, fits, length-take pos buf))
      ∙ get_or-take pos k buf d h

  pub get_or-write_in :
      (buf : List A) (pos : ℕ) (bytes : List A) (i : ℕ) (d : A)
      → i < length bytes
      → pos ≤ length buf
      → get_or (write buf pos bytes) (pos + i) d ≡ get_or bytes i d
  unfolding write
  get_or-write_in buf pos bytes i d h fits =
      let e : pos + i ≡ length (take pos buf) + i = omega (arith, fits, length-take pos buf) in
      ap (λ (t : ℕ). get_or (take pos buf ++ (bytes ++ drop (pos + length bytes) buf)) t d) e
      ∙ get_or-append_back (take pos buf) (bytes ++ drop (pos + length bytes) buf) i d
      ∙ get_or-append_front bytes (drop (pos + length bytes) buf) i d h

  pub get_or-write_behind :
      (buf : List A) (pos : ℕ) (bytes : List A) (k : ℕ) (d : A)
      → pos + length bytes ≤ k
      → pos ≤ length buf
      → get_or (write buf pos bytes) k d ≡ get_or buf k d
  unfolding write
  get_or-write_behind buf pos bytes k d h fits =
      let j = k - pos - length bytes in
      let e : k ≡ length (take pos buf) + (length bytes + j) =
        omega (arith, h, fits, length-take pos buf) in
      let f : pos + length bytes + j ≡ k = omega (arith, h) in
      ap (λ (t : ℕ). get_or (take pos buf ++ (bytes ++ drop (pos + length bytes) buf)) t d) e
      ∙ get_or-append_back (take pos buf) (bytes ++ drop (pos + length bytes) buf)
          (length bytes + j) d
      ∙ get_or-append_back bytes (drop (pos + length bytes) buf) j d
      ∙ get_or-drop (pos + length bytes) j buf d
      ∙ ap (λ (t : ℕ). get_or buf t d) f
