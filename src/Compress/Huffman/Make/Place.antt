-- ===== src/Compress/Huffman/Make/Place.antt =====
-- `sort_symbols` of src/compress/huffman.rs: every used symbol is placed once, in the range of its
-- bucket.
use zenflate.Prelude.{
  ℕ, suc, ◌+◌, ◌*◌, ◌%◌, ◌^◌, ◌≤◌, ◌<◌, bit_or, List, [], ◌∷◌, ◌++◌, length, get_or, set, ltb, ◌==◌,
  if◌then◌else◌, arith, ◌≡◌, ◌≢◌, sym, ap, ◌∙◌, inl, inr, Bool-cases, ltb→lt, ltb→ge, length-set,
  length-append, get_or-set, get_or-set_above, get_or-set_below,
}
use zenflate.Prelude.Bits.{bit_or_disjoint}
use zenflate.Prelude.Range.{get_or-append_front, get_or-append_back}
use zenflate.Prelude.Words.{shl32}
use zenflate.Compress.Huffman.Weight.{count_of}
use zenflate.Compress.Huffman.Tree.Words.{symbol}
use zenflate.Compress.Huffman.Make.Put.{count_of-append}
use zenflate.Compress.Huffman.Make.Buckets.{below}

pub get_or-set_other : (xs : List ℕ) (i j v : ℕ) → i ≢ j → get_or (set xs i v) j 0 ≡ get_or xs j 0
get_or-set_other xs i j v ne = elim (Bool-cases (ltb i j)) [
  | inl t ↦ get_or-set_above xs i j v 0 (ltb→lt i j t)
  | inr t ↦ let l : j < i = omega (arith, ltb→ge i j t, ne) in get_or-set_below xs i j v 0 l
]

pub entry-symbol : (s freq : ℕ) → s < 1024 → bit_or s (shl32 freq 10) % 1024 ≡ s
entry-symbol s freq h =
    let e : shl32 freq 10 ≡ freq % 2 ^ 22 * 2 ^ 10 = omega arith in
    let word : bit_or s (shl32 freq 10) ≡ s + freq % 2 ^ 22 * 2 ^ 10 =
      ap (bit_or s) e ∙ bit_or_disjoint 10 s (freq % 2 ^ 22) (omega (arith, h)) in
    omega (arith, word, h)

pub count-more :
    (b x : ℕ) (ps : List ℕ)
    → count_of b (ps ++ (x ∷ [])) ≡ count_of b ps + (if x == b then 1 else 0)
count-more b x ps = omega (arith, count_of-append b ps (x ∷ []))

pub length-more : (x : ℕ) (ps : List ℕ) → length (ps ++ (x ∷ [])) ≡ suc (length ps)
length-more x ps = omega (arith, length-append ps (x ∷ []))

pub last-more : (x : ℕ) (ps : List ℕ) → get_or (ps ++ (x ∷ [])) (length ps) 0 ≡ x
last-more x ps =
    let e : length ps ≡ length ps + 0 = omega arith in
    ap (λ (t : ℕ). get_or (ps ++ (x ∷ [])) t 0) e ∙ get_or-append_back ps (x ∷ []) 0 0

module _ (n : ℕ) (all : List ℕ) where
  -- A place of the bucket `b` that has an entry, where the symbols before have the buckets `ps`.
  pub record Filled (ps : List ℕ) (b k : ℕ) : Type 0 where
    pub used : 0 < b
    pub inside : b < n
    pub from : below b all ≤ k
    pub upto : k < below b all + count_of b ps

  pub record Placed (ps counters lens symout : List ℕ) : Type 0 where
    pub part : (b : ℕ) → count_of b ps ≤ count_of b all
    pub at : (b : ℕ) → 0 < b → b < n → get_or counters b 0 ≡ below b all + count_of b ps
    pub room_counters : n ≤ length counters
    pub room_symout : n ≤ length symout
    pub room_lens : length lens ≡ n
    pub seen : (b k : ℕ) → Filled ps b k → symbol symout k < length ps
    pub some : (b k : ℕ) → Filled ps b k → 0 < get_or ps (symbol symout k) 0
    pub apart :
        (b c k j : ℕ) → Filled ps b k → Filled ps c j → k ≢ j → symbol symout k ≢ symbol symout j
    pub found :
        (s : ℕ)
        → s < length ps
        → 0 < get_or ps s 0
        → (k : ℕ) × Filled ps (get_or ps s 0) k × (symbol symout k ≡ s)
    pub unused : (s : ℕ) → s < length ps → get_or ps s 0 ≡ 0 → get_or lens s 0 ≡ 0

  -- A symbol that has no bucket.
  module _ (ps counters lens symout : List ℕ) (h : length ps < n)
      (v : Placed ps counters lens symout) where
    same-count : (b : ℕ) → 0 < b → count_of b (ps ++ (0 ∷ [])) ≡ count_of b ps
    same-count b pos = ground (arith, pos, count-more b 0 ps)

    same-Filled : (b k : ℕ) → Filled (ps ++ (0 ∷ [])) b k → Filled ps b k
    same-Filled b k f = record {
      used = f.used;
      inside = f.inside;
      from = f.from;
      upto = omega (arith, f.upto, same-count b f.used);
    }

    Filled-same : (b k : ℕ) → Filled ps b k → Filled (ps ++ (0 ∷ [])) b k
    Filled-same b k f = record {
      used = f.used;
      inside = f.inside;
      from = f.from;
      upto = omega (arith, f.upto, same-count b f.used);
    }

    skip-found :
        (s : ℕ)
        → s < length (ps ++ (0 ∷ []))
        → 0 < get_or (ps ++ (0 ∷ [])) s 0
        → (k : ℕ) × Filled (ps ++ (0 ∷ [])) (get_or (ps ++ (0 ∷ [])) s 0) k × (symbol symout k ≡ s)
    skip-found s g pos = elim (Bool-cases (ltb s (length ps))) [
      | inl t ↦
          let l = ltb→lt s (length ps) t in
          let e = get_or-append_front ps (0 ∷ []) s 0 l in
          let (k, f, w) = v.found s l (omega (arith, pos, e)) in
          (k, rw e (Filled-same (get_or ps s 0) k f), w)
      | inr t ↦
          let same : s ≡ length ps = omega (arith, g, length-more 0 ps, ltb→ge s (length ps) t) in
          absurd
            (omega (arith, pos, ap (λ (i : ℕ). get_or (ps ++ (0 ∷ [])) i 0) same, last-more 0 ps))
    ]

    skip-unused :
        (s : ℕ)
        → s < length (ps ++ (0 ∷ []))
        → get_or (ps ++ (0 ∷ [])) s 0 ≡ 0
        → get_or (set lens (length ps) 0) s 0 ≡ 0
    skip-unused s g z = elim (Bool-cases (ltb s (length ps))) [
      | inl t ↦
          let l = ltb→lt s (length ps) t in
          get_or-set_below lens (length ps) s 0 0 l
          ∙ v.unused s l (sym (get_or-append_front ps (0 ∷ []) s 0 l) ∙ z)
      | inr t ↦
          let same : s ≡ length ps = omega (arith, g, length-more 0 ps, ltb→ge s (length ps) t) in
          rw same (get_or-set lens (length ps) 0 0 (omega (arith, h, v.room_lens)))
    ]

    pub skip-Placed :
        ((b : ℕ) → count_of b (ps ++ (0 ∷ [])) ≤ count_of b all)
        → Placed (ps ++ (0 ∷ [])) counters (set lens (length ps) 0) symout
    skip-Placed part = record {
      part = part;
      at = λ b pos l. omega (arith, v.at b pos l, same-count b pos);
      room_counters = v.room_counters;
      room_symout = v.room_symout;
      room_lens = length-set lens (length ps) 0 ∙ v.room_lens;
      seen = λ b k f. omega (arith, v.seen b k (same-Filled b k f), length-more 0 ps);
      some = λ b k f.
          let old = same-Filled b k f in
          omega (
            arith,
            v.some b k old,
            get_or-append_front ps (0 ∷ []) (symbol symout k) 0 (v.seen b k old),
          );
      apart = λ b c k j f g. v.apart b c k j (same-Filled b k f) (same-Filled c j g);
      found = skip-found;
      unused = skip-unused;
    }
