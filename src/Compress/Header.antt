-- ===== src/Compress/Header.antt =====
-- `zlib_header` of src/compress/mod.rs, and the checks of `zlib_decompress` on it.
use zenflate.Prelude.{
  ℕ, ◌+◌, ◌-◌, ◌*◌, ◌%◌, ◌^◌, ltb, ◌==◌, Bool, true, ◌≡◌, refl, ap, ◌∙◌, inl, inr, ◌⊎◌, Bool-cases,
  if◌then◌else◌,
}
use zenflate.Compress.{level_hint, zlib_header}
use zenflate.Decompress.Wrapper.{zlib_header_ok}

-- The bytes for a level hint.
header_for : ℕ → ℕ × ℕ
header_for hint =
    let flg = hint * 2 ^ 6 in
    let check = (0x78 * 256 + flg) % 31 in (0x78, if check == 0 then flg else flg + (31 - check))

accepted : ℕ → Bool
unfolding header_for
accepted hint = zlib_header_ok (header_for hint).0 (header_for hint).1

hint-cases :
    (level : ℕ)
    → (level_hint level ≡ 0)
      ⊎ (level_hint level ≡ 1)
      ⊎ (level_hint level ≡ 2)
      ⊎ (level_hint level ≡ 3)
unfolding level_hint
hint-cases level = elim (Bool-cases (ltb level 2)) [
  | inl a ↦ inl (rw a refl)
  | inr a ↦ elim (Bool-cases (ltb level 6)) [
    | inl b ↦ inr (inl (rw (a, b) refl))
    | inr b ↦ elim (Bool-cases (ltb level 8)) [
      | inl c ↦ inr (inr (inl (rw (a, b, c) refl)))
      | inr c ↦ inr (inr (inr (rw (a, b, c) refl)))
    ]
  ]
]

accepted_hint : (hint n : ℕ) → hint ≡ n → accepted n ≡ true → accepted hint ≡ true
accepted_hint hint n e h = ap accepted e ∙ h

-- At every level, `zlib_header` writes a header that `zlib_decompress` accepts.
pub zlib_header-accepted :
    (level : ℕ) → zlib_header_ok (zlib_header level).0 (zlib_header level).1 ≡ true
unfolding zlib_header accepted header_for zlib_header_ok
zlib_header-accepted level = elim (hint-cases level) [
  | inl e ↦ accepted_hint (level_hint level) 0 e refl
  | inr r ↦ elim r [
    | inl e ↦ accepted_hint (level_hint level) 1 e refl
    | inr q ↦ elim q [
      | inl e ↦ accepted_hint (level_hint level) 2 e refl
      | inr e ↦ accepted_hint (level_hint level) 3 e refl
    ]
  ]
]
