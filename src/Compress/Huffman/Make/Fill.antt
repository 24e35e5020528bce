-- ===== src/Compress/Huffman/Make/Fill.antt =====
-- `sort_symbols` of src/compress/huffman.rs: the loop that places the symbols.
use zenflate.Prelude.{
  ℕ, suc, ◌+◌, ◌%◌, ◌≤◌, ◌<◌, List, [], ◌∷◌, ◌++◌, length, get_or, set, ltb, ◌==◌, arith, ◌≡◌, ◌≢◌,
  sym, ap, ◌∙◌, inl, inr, Bool-cases, ltb→lt, ltb→ge, ==_iff, length-set, get_or-set,
}
use mathlib.Core.Bool.{true≢false}
use zenflate.Prelude.Range.{get_or-append_front}
use zenflate.Compress.Huffman.Weight.{count_of}
use zenflate.Compress.Huffman.Tree.Words.{symbol}
use zenflate.Compress.Huffman.Make.Buckets.{below, below-suc, below_mono, below-length}
use zenflate.Compress.Huffman.Make.Place.{
  Filled, Placed, count-more, length-more, last-more, get_or-set_other,
}

module _ (n : ℕ) (all : List ℕ) where
  -- A symbol of the bucket `x`.
  module _ (x entry : ℕ) (ps counters lens symout : List ℕ) (pos : 0 < x) (h : x < n)
      (room : length ps < n) (size : length all ≡ n)
      (part : (b : ℕ) → count_of b (ps ++ (x ∷ [])) ≤ count_of b all) (e : entry % 1024 ≡ length ps)
      (v : Placed n all ps counters lens symout) where
    abbrev more : List ℕ
    more = ps ++ (x ∷ [])

    abbrev place_of : ℕ
    place_of = get_or counters x 0

    abbrev placed : List ℕ
    placed = set symout place_of entry

    place-eq : place_of ≡ below x all + count_of x ps
    place-eq = v.at x pos h

    place-lt : place_of < below (suc x) all
    place-lt = ground (arith, place-eq, below-suc x all pos, part x, count-more x x ps)

    here : symbol placed place_of ≡ length ps
    here =
        ap (λ (t : ℕ). t % 1024)
          (get_or-set symout place_of entry 0
            (omega (arith, place-lt, below-length (suc x) all, size, v.room_symout)))
        ∙ e

    away : (k : ℕ) → place_of ≢ k → symbol placed k ≡ symbol symout k
    away k ne = ap (λ (t : ℕ). t % 1024) (get_or-set_other symout place_of k entry ne)

    -- The place is not yet filled, and nothing else is new.
    fresh : (b k : ℕ) → Filled n all ps b k → place_of ≢ k
    fresh b k f same = elim (Bool-cases (b == x)) [
      | inl t ↦
          let z : b ≡ x = (==_iff b x).0 t in
          let starts : below b all ≡ below x all = ap (λ (i : ℕ). below i all) z in
          let counts : count_of b ps ≡ count_of x ps = ap (λ (i : ℕ). count_of i ps) z in
          omega (arith, f.upto, place-eq, same, starts, counts)
      | inr t ↦ elim (Bool-cases (ltb b x)) [
        | inl u ↦ omega (
          arith,
          f.upto,
          place-eq,
          same,
          below-suc b all f.used,
          below_mono (suc b) x all (omega (arith, ltb→lt b x u)),
          v.part b,
        )
        | inr u ↦
            let l : suc x ≤ b = ground (arith, t, ltb→ge b x u) in
            omega (arith, f.from, place-lt, same, below_mono (suc x) b all l)
      ]
    ]

    old-Filled : (b k : ℕ) → Filled n all more b k → place_of ≢ k → Filled n all ps b k
    old-Filled b k f ne = record {
      used = f.used;
      inside = f.inside;
      from = f.from;
      upto = elim (Bool-cases (x == b)) [
        | inl t ↦
            let z : b ≡ x = sym ((==_iff x b).0 t) in
            let starts : below b all ≡ below x all = ap (λ (i : ℕ). below i all) z in
            let counts : count_of b ps ≡ count_of x ps = ap (λ (i : ℕ). count_of i ps) z in
            ground (arith, f.upto, count-more b x ps, place-eq, starts, counts, ne)
        | inr t ↦ ground (arith, f.upto, count-more b x ps, t)
      ];
    }

    new-Filled : (b k : ℕ) → Filled n all ps b k → Filled n all more b k
    new-Filled b k f = record {
      used = f.used;
      inside = f.inside;
      from = f.from;
      upto = omega (arith, f.upto, count-more b x ps);
    }

    place-found :
        (s : ℕ)
        → s < length more
        → 0 < get_or more s 0
        → (k : ℕ) × Filled n all more (get_or more s 0) k × (symbol placed k ≡ s)
    place-found s g used = elim (Bool-cases (ltb s (length ps))) [
      | inl t ↦
          let l = ltb→lt s (length ps) t in
          let same = get_or-append_front ps (x ∷ []) s 0 l in
          let (k, f, w) = v.found s l (omega (arith, used, same)) in
          (k, rw same (new-Filled (get_or ps s 0) k f), away k (fresh (get_or ps s 0) k f) ∙ w)
      | inr t ↦
          let same : s ≡ length ps = omega (arith, g, length-more x ps, ltb→ge s (length ps) t) in
          let bucket_eq : get_or more s 0 ≡ x =
            ap (λ (i : ℕ). get_or more i 0) same ∙ last-more x ps in
          (
            place_of,
            rw bucket_eq record {
              used = pos;
              inside = h;
              from = omega (arith, place-eq);
              upto = ground (arith, place-eq, count-more x x ps);
            },
            here ∙ sym same,
          )
    ]

    place-apart :
        (b c k j : ℕ)
        → Filled n all more b k
        → Filled n all more c j
        → k ≢ j
        → symbol placed k ≢ symbol placed j
    place-apart b c k j f g ne same = elim (Bool-cases (place_of == k)) [
      | inl t ↦
          let z : place_of ≡ k = (==_iff place_of k).0 t in
          let other : place_of ≢ j = λ w. ne (sym z ∙ w) in
          let at_k : symbol placed k ≡ length ps = ap (symbol placed) (sym z) ∙ here in
          omega (arith, same, at_k, away j other, v.seen c j (old-Filled c j g other))
      | inr t ↦
          let first : place_of ≢ k = λ w. true≢false (sym ((==_iff place_of k).1 w) ∙ t) in
          elim (Bool-cases (place_of == j)) [
            | inl u ↦
                let z : place_of ≡ j = (==_iff place_of j).0 u in
                let at_j : symbol placed j ≡ length ps = ap (symbol placed) (sym z) ∙ here in
                omega (arith, same, at_j, away k first, v.seen b k (old-Filled b k f first))
            | inr u ↦
                let other : place_of ≢ j = λ w. true≢false (sym ((==_iff place_of j).1 w) ∙ u) in
                v.apart b c k j (old-Filled b k f first) (old-Filled c j g other) ne
                  (sym (away k first) ∙ same ∙ away j other)
          ]
    ]

    place-seen : (b k : ℕ) → Filled n all more b k → symbol placed k < length more
    place-seen b k f = elim (Bool-cases (place_of == k)) [
      | inl t ↦
          let z : place_of ≡ k = (==_iff place_of k).0 t in
          let at_k : symbol placed k ≡ length ps = ap (symbol placed) (sym z) ∙ here in
          omega (arith, at_k, length-more x ps)
      | inr t ↦
          let other : place_of ≢ k = λ w. true≢false (sym ((==_iff place_of k).1 w) ∙ t) in
          omega (arith, away k other, v.seen b k (old-Filled b k f other), length-more x ps)
    ]

    place-some : (b k : ℕ) → Filled n all more b k → 0 < get_or more (symbol placed k) 0
    place-some b k f = elim (Bool-cases (place_of == k)) [
      | inl t ↦
          let z : place_of ≡ k = (==_iff place_of k).0 t in
          let at_k : symbol placed k ≡ length ps = ap (symbol placed) (sym z) ∙ here in
          omega (arith, pos, ap (λ (i : ℕ). get_or more i 0) at_k, last-more x ps)
      | inr t ↦
          let other : place_of ≢ k = λ w. true≢false (sym ((==_iff place_of k).1 w) ∙ t) in
          let old = old-Filled b k f other in
          omega (
            arith,
            ap (λ (i : ℕ). get_or more i 0) (away k other),
            v.some b k old,
            get_or-append_front ps (x ∷ []) (symbol symout k) 0 (v.seen b k old),
          )
    ]

    place-unused : (s : ℕ) → s < length more → get_or more s 0 ≡ 0 → get_or lens s 0 ≡ 0
    place-unused s g z = elim (Bool-cases (ltb s (length ps))) [
      | inl t ↦
          let l = ltb→lt s (length ps) t in
          v.unused s l (sym (get_or-append_front ps (x ∷ []) s 0 l) ∙ z)
      | inr t ↦
          let same : s ≡ length ps = omega (arith, g, length-more x ps, ltb→ge s (length ps) t) in
          absurd (omega (arith, pos, z, ap (λ (i : ℕ). get_or more i 0) same, last-more x ps))
    ]

    place-at :
        (b : ℕ)
        → 0 < b
        → b < n
        → get_or (set counters x (place_of + 1)) b 0 ≡ below b all + count_of b more
    place-at b used l = elim (Bool-cases (x == b)) [
      | inl t ↦
          let z : b ≡ x = sym ((==_iff x b).0 t) in
          rw z (
            get_or-set counters x (place_of + 1) 0 (omega (arith, h, v.room_counters))
            ∙ ground (arith, place-eq, count-more x x ps))
      | inr t ↦
          let other : x ≢ b = λ w. true≢false (sym ((==_iff x b).1 w) ∙ t) in
          get_or-set_other counters x b (place_of + 1) other
          ∙ ground (arith, v.at b used l, count-more b x ps, t)
    ]

    pub place-Placed : Placed n all more (set counters x (place_of + 1)) lens placed
    place-Placed = record {
      part = part;
      at = place-at;
      room_counters = omega (arith, v.room_counters, length-set counters x (place_of + 1));
      room_symout = omega (arith, v.room_symout, length-set symout place_of entry);
      room_lens = v.room_lens;
      seen = place-seen;
      some = place-some;
      apart = place-apart;
      found = place-found;
      unused = place-unused;
    }
