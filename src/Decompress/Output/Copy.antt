-- ===== src/Decompress/Output/Copy.antt =====
-- What a match copy of src/decompress/mod.rs has done so far, and one more write.
use zenflate.Prelude.{
  ℕ, ◌+◌, ◌-◌, ◌%◌, ◌≤◌, ◌<◌, List, length, get_or, take, drop, ltb, arith, ◌≡◌, refl, sym, ap, ◌∙◌,
  inl, inr, Bool-cases, ltb→lt, ltb→ge, le→leb, length-take, length-drop, get_or-drop,
}
use native.Mathlib.Nat.{mod-eq_of_lt, mod-eq-sub-mod}
use zenflate.Prelude.Buffer.{write, length-write}
use zenflate.Prelude.Range.{get_or-take, get_or-write_before, get_or-write_in, get_or-write_behind}
use zenflate.Outcome.{ok}
use zenflate.Decompress.Output.{write_at, copy_within}

-- `n` bytes from `p` on repeat the `o` bytes before `p`; the places before `p` and those from
-- `limit` on are as they were.
pub record Copied (output : List ℕ) (p o limit n : ℕ) (res : List ℕ) : Type 0 where
  pub size : length res ≡ length output
  pub before : (k : ℕ) → k < p → get_or res k 0 ≡ get_or output k 0
  pub repeated : (i : ℕ) → i < n → get_or res (p + i) 0 ≡ get_or output (p - o + i % o) 0
  pub behind : (k : ℕ) → limit ≤ k → get_or res k 0 ≡ get_or output k 0

pub nothing-Copied : (output : List ℕ) (p o limit : ℕ) → Copied output p o limit 0 output
nothing-Copied output p o limit = record {
  size = refl;
  before = λ k h. refl;
  repeated = λ i h. absurd (omega (arith, h));
  behind = λ k h. refl;
}

pub fewer-Copied :
    (output res : List ℕ) (p o limit n m : ℕ)
    → m ≤ n
    → Copied output p o limit n res
    → Copied output p o limit m res
fewer-Copied output res p o limit n m h v = record {
  size = v.size;
  before = v.before;
  repeated = λ i lt. v.repeated i (omega (arith, h, lt));
  behind = v.behind;
}

-- The place that a copy reads next holds the byte that belongs to the place it writes.
pub source-Copied :
    (output res : List ℕ) (p o limit n x : ℕ)
    → 0 < o
    → o ≤ p
    → x < n + o
    → Copied output p o limit n res
    → get_or res (p - o + x) 0 ≡ get_or output (p - o + x % o) 0
source-Copied output res p o limit n x pos le h v = elim (Bool-cases (ltb x o)) [
  | inl a ↦
      let lt = ltb→lt x o a in
      let e : x ≡ x % o = sym (mod-eq_of_lt lt) in
      v.before (p - o + x) (omega (arith, lt, le)) ∙ ap (λ (t : ℕ). get_or output (p - o + t) 0) e
  | inr a ↦
      let ge = ltb→ge x o a in
      let e : p - o + x ≡ p + (x - o) = omega (arith, ge, le) in
      let f : x % o ≡ (x - o) % o = mod-eq-sub-mod ge in
      ap (λ (t : ℕ). get_or res t 0) e
      ∙ v.repeated (x - o) (omega (arith, ge, h))
      ∙ ap (λ (t : ℕ). get_or output (p - o + t) 0) (sym f)
]

-- A write behind what is copied adds its first `k` bytes, where these are right.
pub write-Copied :
    (output res bytes : List ℕ) (p o limit n k : ℕ)
    → k ≤ length bytes
    → p + n + length bytes ≤ limit
    → p + n + length bytes ≤ length output
    → ((j : ℕ) → j < k → get_or bytes j 0 ≡ get_or output (p - o + (n + j) % o) 0)
    → Copied output p o limit n res
    → Copied output p o limit (n + k) (write res (p + n) bytes)
write-Copied output res bytes p o limit n k le low fits right v = record {
  size = length-write res (p + n) bytes (omega (arith, v.size, fits)) ∙ v.size;
  before = λ i h.
      get_or-write_before res (p + n) bytes i 0 (omega (arith, h)) (omega (arith, v.size, fits))
      ∙ v.before i h;
  repeated = λ i h. elim (Bool-cases (ltb i n)) [
    | inl a ↦
        let lt = ltb→lt i n a in
        get_or-write_before res (p + n) bytes (p + i) 0 (omega (arith, lt))
          (omega (arith, v.size, fits))
        ∙ v.repeated i lt
    | inr a ↦
        let ge = ltb→ge i n a in
        let e : p + i ≡ p + n + (i - n) = omega (arith, ge) in
        let f : n + (i - n) ≡ i = omega (arith, ge) in
        ap (λ (t : ℕ). get_or (write res (p + n) bytes) t 0) e
        ∙ get_or-write_in res (p + n) bytes (i - n) 0 (omega (arith, ge, h, le))
            (omega (arith, v.size, fits))
        ∙ right (i - n) (omega (arith, ge, h))
        ∙ ap (λ (t : ℕ). get_or output (p - o + t % o) 0) f
  ];
  behind = λ i h.
      get_or-write_behind res (p + n) bytes i 0 (omega (arith, low, h))
        (omega (arith, v.size, fits))
      ∙ v.behind i h;
}

pub write_at-ok {ℓ} :
    (E : Type ℓ) (res : List ℕ) (pos : ℕ) (bytes : List ℕ)
    → pos + length bytes ≤ length res
    → write_at {E = E} res pos bytes ≡ ok (write res pos bytes)
unfolding write_at
write_at-ok E res pos bytes h = rw (le→leb (pos + length bytes) (length res) h) refl

pub length-part :
    (res : List ℕ) (src n : ℕ) → src + n ≤ length res → length (take n (drop src res)) ≡ n
length-part res src n h = omega (arith, h, length-take n (drop src res), length-drop src res)

pub copy_within-ok {ℓ} :
    (E : Type ℓ) (res : List ℕ) (src n dst : ℕ)
    → src + n ≤ length res
    → dst + n ≤ length res
    → copy_within {E = E} res src n dst ≡ ok (write res dst (take n (drop src res)))
unfolding copy_within
copy_within-ok E res src n dst h g =
    rw (le→leb (src + n) (length res) h)
      (write_at-ok E res dst (take n (drop src res)) (omega (arith, g, length-part res src n h)))

-- `copy_within` behind what is copied, from where the right bytes stand.
pub part-Copied :
    (output res : List ℕ) (p o limit n k w src : ℕ)
    → k ≤ w
    → src + w ≤ length output
    → p + n + w ≤ limit
    → p + n + w ≤ length output
    → ((j : ℕ) → j < k → get_or res (src + j) 0 ≡ get_or output (p - o + (n + j) % o) 0)
    → Copied output p o limit n res
    → Copied output p o limit (n + k) (write res (p + n) (take w (drop src res)))
part-Copied output res p o limit n k w src le source low fits right v =
    let bytes = take w (drop src res) in
    let size = length-part res src w (omega (arith, v.size, source)) in
    write-Copied output res bytes p o limit n k (omega (arith, size, le)) (omega (arith, size, low))
      (omega (arith, size, fits))
      (λ j h.
        get_or-take w j (drop src res) 0 (omega (arith, le, h))
        ∙ get_or-drop src j res 0
        ∙ right j h)
      v
