-- ===== src/Decompress/Gzip/Accepts.antt =====
-- `gzip_decompress` of src/decompress/mod.rs on the headers of the gzip format (RFC 1952).
use zenflate.Prelude.{
  ℕ, ◌+◌, ◌/◌, ◌%◌, Option, none, some, List, [], ◌∷◌, ◌++◌, length, not, ◌&&◌, Bool, true, false,
  if◌then◌else◌, arith, ◌≡◌, refl,
}
use zenflate.Decompress.Gzip.{has}

-- The optional parts of a header: the bytes of the extra field, the name and the comment without
-- their final zero, and the two bytes of the header checksum.
pub record GzipHeader : Type 0 where
  pub is_text : Bool
  pub mtime : ℕ × ℕ × ℕ × ℕ
  pub extra_flags : ℕ
  pub os : ℕ
  pub extra : Option (List ℕ)
  pub name : Option (List ℕ)
  pub comment : Option (List ℕ)
  pub checksum : Option (ℕ × ℕ)

abbrev pub given {ℓ} : {A : Type ℓ} → Option A → Bool
given none = false
given (some a) = true

abbrev pub bit : Bool → ℕ → ℕ
bit b k = if b then k else 0

abbrev pub flags : Bool → Bool → Bool → Bool → Bool → ℕ
flags text crc extra name comment =
    bit text 1 + bit crc 2 + bit extra 4 + bit name 8 + bit comment 16

abbrev pub extra_bytes : Option (List ℕ) → List ℕ
extra_bytes none = []
extra_bytes (some bytes) = length bytes % 256 ∷ length bytes / 256 ∷ bytes

abbrev pub text_bytes : Option (List ℕ) → List ℕ
text_bytes none = []
text_bytes (some text) = text ++ (0 ∷ [])

abbrev pub checksum_bytes : Option (ℕ × ℕ) → List ℕ
checksum_bytes none = []
checksum_bytes (some c) = c.0 ∷ c.1 ∷ []

-- A header as the format writes it.
abbrev pub fixed_bytes : GzipHeader → List ℕ
fixed_bytes h =
    0x1f
    ∷ 0x8b
    ∷ 8
    ∷ flags h.is_text (given h.checksum) (given h.extra) (given h.name) (given h.comment)
    ∷ h.mtime.0
    ∷ h.mtime.1
    ∷ h.mtime.2
    ∷ h.mtime.3
    ∷ h.extra_flags
    ∷ h.os
    ∷ []

abbrev pub header_bytes : GzipHeader → List ℕ
header_bytes h =
    fixed_bytes h
    ++ (extra_bytes h.extra
        ++ (text_bytes h.name ++ (text_bytes h.comment ++ checksum_bytes h.checksum)))

-- A check of all values of the five flags.
all : (Bool → Bool) → Bool
all f = f true && f false

all-apply : (f : Bool → Bool) → all f ≡ true → (b : Bool) → f b ≡ true
unfolding all
all-apply f h true = ground (arith, h)
all-apply f h false = ground (arith, h)

same : Bool → Bool → Bool
same true b = b
same false b = not b

same→eq : (a b : Bool) → same a b ≡ true → a ≡ b
unfolding same
same→eq true true h = refl
same→eq true false h = absurd (ground (arith, h))
same→eq false true h = absurd (ground (arith, h))
same→eq false false h = refl

module _ (f g : Bool → Bool → Bool → Bool → Bool → Bool) where
  everywhere : Bool
  unfolding all same
  everywhere = all λ a. all λ b. all λ c. all λ d. all λ e. same (f a b c d e) (g a b c d e)

  everywhere→eq : everywhere ≡ true → (a b c d e : Bool) → f a b c d e ≡ g a b c d e
  unfolding everywhere
  everywhere→eq h a b c d e = same→eq (f a b c d e) (g a b c d e) (
      all-apply (λ e. same (f a b c d e) (g a b c d e))
        (all-apply (λ d. all λ e. same (f a b c d e) (g a b c d e))
          (all-apply (λ c. all λ d. all λ e. same (f a b c d e) (g a b c d e))
            (all-apply (λ b. all λ c. all λ d. all λ e. same (f a b c d e) (g a b c d e))
              (all-apply (λ a. all λ b. all λ c. all λ d. all λ e. same (f a b c d e) (g a b c d e))
                h a)
              b)
            c)
          d)
        e)

pub has-extra : (a b c d e : Bool) → has (flags a b c d e) 4 ≡ c
unfolding everywhere
has-extra = everywhere→eq (λ a b c d e. has (flags a b c d e) 4) (λ a b c d e. c) refl

pub has-name : (a b c d e : Bool) → has (flags a b c d e) 8 ≡ d
unfolding everywhere
has-name = everywhere→eq (λ a b c d e. has (flags a b c d e) 8) (λ a b c d e. d) refl

pub has-comment : (a b c d e : Bool) → has (flags a b c d e) 16 ≡ e
unfolding everywhere
has-comment = everywhere→eq (λ a b c d e. has (flags a b c d e) 16) (λ a b c d e. e) refl

pub has-checksum : (a b c d e : Bool) → has (flags a b c d e) 2 ≡ b
unfolding everywhere
has-checksum = everywhere→eq (λ a b c d e. has (flags a b c d e) 2) (λ a b c d e. b) refl

pub has-reserved : (a b c d e : Bool) → has (flags a b c d e) 0xe0 ≡ false
unfolding everywhere
has-reserved = everywhere→eq (λ a b c d e. has (flags a b c d e) 0xe0) (λ a b c d e. false) refl
