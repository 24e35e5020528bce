-- ===== src/Compress/Limits.antt =====
-- The small choices of src/compress/mod.rs on match lengths and block ends.
use zenflate.Prelude.{
  ℕ, zero, suc, ◌+◌, ◌-◌, ◌≤◌, ◌<◌, min, List, [], ◌∷◌, ◌++◌, length, take, get_or, set, replicate,
  All, All-append, All-get_or, Bool, true, false, ltb, leb, if◌then◌else◌, arith, ◌≡◌, refl, inl,
  inr, ◌⊎◌, Bool-cases, ltb→lt, ltb→ge,
}
use zenflate.Compress.{min_block_length}

-- `DEFLATE_MIN_MATCH_LEN` and `DEFLATE_MAX_MATCH_LEN`
abbrev pub deflate_min_match_len : ℕ
deflate_min_match_len = 3

abbrev pub deflate_max_match_len : ℕ
deflate_max_match_len = 258

-- `n` times `v`, for each pair
abbrev expand : List (ℕ × ℕ) → List ℕ
expand [] = []
expand ((n, v) ∷ runs) = replicate n v ++ expand runs

-- `MIN_MATCH_LEN_TABLE`, by its runs
abbrev min_match_len_runs : List (ℕ × ℕ)
min_match_len_runs = (6, 9) ∷ (2, 8) ∷ (2, 7) ∷ (6, 6) ∷ (29, 5) ∷ (35, 4) ∷ []

-- `if max_search_depth < 16`
unfoldable cap_for_depth : ℕ → ℕ → ℕ
cap_for_depth min_len max_search_depth =
    if ltb max_search_depth 16
    then (if ltb max_search_depth 5
        then min min_len 4
        else if ltb max_search_depth 10
        then min min_len 5
        else min min_len 7)
    else min_len

-- The length of the table is 80. The last argument of `get_or` is never used: the index is below.
unfoldable choose_min_match_len : ℕ → ℕ → ℕ
unfolding cap_for_depth
choose_min_match_len num_used_literals max_search_depth =
    let min_len =
      if leb 80 num_used_literals
      then deflate_min_match_len
      else get_or (expand min_match_len_runs) num_used_literals deflate_min_match_len in
    cap_for_depth min_len max_search_depth

-- `used[b] = true`, and the number of literals that are used.
unfoldable mark_used : List Bool → List ℕ → List Bool
mark_used used [] = used
mark_used used (b ∷ bytes) = mark_used (set used b true) bytes

unfoldable count_used : List Bool → ℕ
count_used [] = 0
count_used (u ∷ used) = (if u then 1 else 0) + count_used used

pub calculate_min_match_len : List ℕ → ℕ → ℕ
unfolding choose_min_match_len mark_used count_used
calculate_min_match_len bytes max_search_depth =
    if ltb (length bytes) 512
    then deflate_min_match_len
    else choose_min_match_len
        (count_used (mark_used (replicate 256 false) (take (min (length bytes) 4096) bytes)))
        max_search_depth

-- `max_len` and `nice_len`
pub adjust_max_and_nice_len : ℕ → ℕ → ℕ → ℕ × ℕ
adjust_max_and_nice_len max_len nice_len remaining =
    if ltb remaining deflate_max_match_len
    then (remaining, min nice_len remaining)
    else (max_len, nice_len)

pub choose_max_block_end : ℕ → ℕ → ℕ → ℕ
choose_max_block_end block_begin in_end soft_max_len =
    if ltb (in_end - block_begin) (soft_max_len + min_block_length)
    then in_end
    else block_begin + soft_max_len

-- For a block that begins in the input, `choose_max_block_end` stays in the input, gives it less
-- than the soft limit and the shortest block together, and leaves either nothing or at least the
-- shortest block; where it leaves something, the block has the length of the soft limit.
pub choose_max_block_end_lem :
    (block_begin in_end soft_max_len : ℕ)
    → block_begin ≤ in_end
    → (choose_max_block_end block_begin in_end soft_max_len ≤ in_end)
      × (choose_max_block_end block_begin in_end soft_max_len
          < block_begin + soft_max_len + min_block_length)
      × ((choose_max_block_end block_begin in_end soft_max_len ≡ in_end)
          ⊎ (choose_max_block_end block_begin in_end soft_max_len ≡ block_begin + soft_max_len)
            × (choose_max_block_end block_begin in_end soft_max_len + min_block_length ≤ in_end))
unfolding choose_max_block_end
choose_max_block_end_lem b e s h = elim (Bool-cases (ltb (e - b) (s + min_block_length))) [
  | inl short ↦
      let l = ltb→lt (e - b) (s + min_block_length) short in
      rw short (omega arith, omega (arith, l), inl refl)
  | inr long ↦
      let g = ltb→ge (e - b) (s + min_block_length) long in
      rw long (omega (arith, g), omega arith, inr (refl, omega (arith, g)))
]

-- For a longest length of at most 258 and a nice length that is not above it, the adjusted lengths
-- do not pass what remains, the nice length is not above the longest, and it does not grow.
pub adjust_max_and_nice_len_lem :
    (max_len nice_len remaining : ℕ)
    → max_len ≤ deflate_max_match_len
    → nice_len ≤ max_len
    → ((adjust_max_and_nice_len max_len nice_len remaining).0 ≤ remaining)
      × ((adjust_max_and_nice_len max_len nice_len remaining).1
          ≤ (adjust_max_and_nice_len max_len nice_len remaining).0)
      × ((adjust_max_and_nice_len max_len nice_len remaining).1 ≤ nice_len)
unfolding adjust_max_and_nice_len
adjust_max_and_nice_len_lem max_len nice_len remaining h k =
    elim (Bool-cases (ltb remaining deflate_max_match_len)) [
      | inl near ↦ rw near (omega arith, omega arith, omega arith)
      | inr far ↦
          let g = ltb→ge remaining deflate_max_match_len far in
          rw far (omega (arith, g), omega arith, omega arith)
    ]

abbrev pub InRange : ℕ → Type 0
InRange t = (3 ≤ t) × (t ≤ 9)

abbrev RunInRange : ℕ × ℕ → Type 0
RunInRange (n, v) = InRange v

replicate-InRange : (n t : ℕ) → InRange t → All InRange (replicate n t)
replicate-InRange zero t h = tt
replicate-InRange (suc n) t h = (h, replicate-InRange n t h)

expand-InRange : (runs : List (ℕ × ℕ)) → All RunInRange runs → All InRange (expand runs)
expand-InRange [] h = tt
expand-InRange ((n, v) ∷ runs) (h, hs) =
    All-append InRange (replicate n v) (expand runs) (replicate-InRange n v h)
      (expand-InRange runs hs)

table-InRange : All InRange (expand min_match_len_runs)
table-InRange =
    let at : (t : ℕ) → 3 ≤ t → t ≤ 9 → InRange t = λ t h k. (h, k) in
    expand-InRange min_match_len_runs (
      at 9 (omega arith) (omega arith),
      (
        at 8 (omega arith) (omega arith),
        (
          at 7 (omega arith) (omega arith),
          (
            at 6 (omega arith) (omega arith),
            (at 5 (omega arith) (omega arith), (at 4 (omega arith) (omega arith), tt)),
          ),
        ),
      ),
    )

cap_for_depth-InRange : (m depth : ℕ) → InRange m → InRange (cap_for_depth m depth)
unfolding cap_for_depth
cap_for_depth-InRange m depth (h, k) = elim (Bool-cases (ltb depth 16)) [
  | inr deep ↦ rw deep (h, k)
  | inl shallow ↦ elim (Bool-cases (ltb depth 5)) [
    | inl a ↦ rw (shallow, a) (omega arith, omega arith)
    | inr a ↦ elim (Bool-cases (ltb depth 10)) [
      | inl b ↦ rw (shallow, a, b) (omega arith, omega arith)
      | inr b ↦ rw (shallow, a, b) (omega arith, omega arith)
    ]
  ]
]

choose_min_match_len-InRange : (used depth : ℕ) → InRange (choose_min_match_len used depth)
unfolding choose_min_match_len
choose_min_match_len-InRange used depth =
    let (ge, le) =
      All-get_or InRange (expand min_match_len_runs) used deflate_min_match_len table-InRange
        (omega arith, omega arith) in
    let base : InRange (
        if leb 80 used
        then deflate_min_match_len
        else get_or (expand min_match_len_runs) used deflate_min_match_len) =
      elim (Bool-cases (leb 80 used)) [
        | inl many ↦ rw many (omega arith, omega arith)
        | inr few ↦ rw few (ge, le)
      ] in
    cap_for_depth-InRange _ depth base

-- The shortest match length that is tried is at least 3 and at most 9, whatever the input and the
-- search depth.
pub calculate_min_match_len-InRange :
    (bytes : List ℕ) (depth : ℕ) → InRange (calculate_min_match_len bytes depth)
unfolding calculate_min_match_len
calculate_min_match_len-InRange bytes depth = elim (Bool-cases (ltb (length bytes) 512)) [
  | inl short ↦ rw short (omega arith, omega arith)
  | inr long ↦ rw long (
      choose_min_match_len-InRange
        (count_used (mark_used (replicate 256 false) (take (min (length bytes) 4096) bytes))) depth)
]
