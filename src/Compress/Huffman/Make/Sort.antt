-- ===== src/Compress/Huffman/Make/Sort.antt =====
-- `sort_symbols` of src/compress/huffman.rs: what the loop has placed, and the sort of the last bucket.
use zenflate.Prelude.{
  ℕ, zero, suc, ◌+◌, ◌-◌, ◌≤◌, ◌<◌, List, [], ◌∷◌, length, get_or, take, All, ltb, ◌==◌, arith, ◌≡◌,
  ◌≢◌, refl, sym, ap, ◌∙◌, inl, inr, Bool-cases, ltb→lt, ltb→ge, ==_iff, take_all, le→leb,
}
use zenflate.Compress.Huffman.Weight.{count_of}
use zenflate.Compress.Huffman.Tree.Words.{symbol}
use zenflate.Compress.Huffman.Make.{bucket, place, sort_range, sort_symbols}
use zenflate.Compress.Huffman.Make.Put.{Distinct}
use zenflate.Compress.Huffman.Make.Lengths.{symbols_from, Used}
use zenflate.Compress.Huffman.Make.Count.{
  All-symbols_from, symbols_from-All, All-of_counts, Distinct-symbols_from, same_counts-Distinct,
  same_counts-All, count_of-sort_range, length-sort_range,
}
use zenflate.Compress.Huffman.Make.Buckets.{
  buckets, length-buckets, below, below-suc, below_mono, below-one, below-length, counters_of,
  counted_of, used-eq, size-counters, counters-below,
}
use zenflate.Compress.Huffman.Make.Place.{Filled, Placed}
use zenflate.Compress.Huffman.Make.Loop.{place-all}

get_or-behind : (xs : List ℕ) (j : ℕ) → length xs ≤ j → get_or xs j 0 ≡ 0
get_or-behind [] j h = refl
get_or-behind (x ∷ xs) zero h = absurd (omega (arith, h))
get_or-behind (x ∷ xs) (suc j) h = get_or-behind xs j (omega (arith, h))

-- The result of `sort_symbols`: the entries of the used symbols and of no other, in slices of the
-- size they had.
pub record Sorted (num_syms : ℕ) (freqs : List ℕ) (r : ℕ × List ℕ × List ℕ) : Type 0 where
  pub used : Used r.2 r.1 r.0
  pub room : num_syms ≤ length r.2
  pub size : length r.1 ≡ num_syms
  pub few : r.0 ≤ num_syms
  pub only_used : All (λ (s : ℕ). 0 < get_or freqs s 0) (symbols_from r.2 0 r.0)
  pub all_used :
      (s : ℕ) → s < num_syms → 0 < get_or freqs s 0 → 0 < count_of s (symbols_from r.2 0 r.0)

-- A used symbol has a bucket.
get_or-buckets :
    (n : ℕ) (freqs : List ℕ) (s : ℕ)
    → s < length freqs
    → 2 ≤ n
    → 0 < get_or freqs s 0
    → 0 < get_or (buckets n freqs) s 0
unfolding bucket
get_or-buckets n [] s h least pos = absurd (omega (arith, h))
get_or-buckets n (f ∷ freqs) zero h least pos = omega (arith, pos, least)
get_or-buckets n (f ∷ freqs) (suc s) h least pos =
    get_or-buckets n freqs s (omega (arith, h)) least pos

-- A symbol with a bucket is used.
buckets-used :
    (n : ℕ) (freqs : List ℕ) (s : ℕ) → 0 < get_or (buckets n freqs) s 0 → 0 < get_or freqs s 0
unfolding bucket
buckets-used n [] s h = h
buckets-used n (f ∷ freqs) zero h = omega (arith, h)
buckets-used n (f ∷ freqs) (suc s) h = buckets-used n freqs s h

module _ (n : ℕ) (all : List ℕ) (least : 2 ≤ n) (most : n ≤ 288) (size : length all ≡ n) where
  -- A place before the first free one belongs to a bucket.
  bucket_of : (m k : ℕ) → m ≤ n → k < below m all → (b : ℕ) × Filled n all all b k
  bucket_of zero k le h = absurd (omega (arith, h, below_mono 0 1 all (omega arith), below-one all))
  bucket_of (suc m) k le h = elim (Bool-cases (ltb k (below m all))) [
    | inl t ↦ bucket_of m k (omega (arith, le)) (ltb→lt k (below m all) t)
    | inr t ↦
        let from = ltb→ge k (below m all) t in
        elim (Bool-cases (ltb 0 m)) [
          | inl u ↦
              let pos = ltb→lt 0 m u in
              (
                m,
                record {
                  used = pos;
                  inside = omega (arith, le);
                  from = from;
                  upto = omega (arith, h, below-suc m all pos);
                },
              )
          | inr u ↦
              let z : suc m ≡ 1 = omega (arith, ltb→ge 0 m u) in
              absurd (omega (arith, h, ap (λ (i : ℕ). below i all) z, below-one all))
        ]
  ]

  -- The used symbols, before the sort.
  module _ (counters lens a : List ℕ) (v : Placed n all all counters lens a) where
    placed-lt : (k : ℕ) → k < below n all → symbol a k < n
    placed-lt k h = let (b, f) = bucket_of n k (omega arith) h in omega (arith, v.seen b k f, size)

    placed-Distinct : Distinct (symbols_from a 0 (below n all))
    placed-Distinct = Distinct-symbols_from a 0 (below n all) (λ k j g m l.
        let (b, f) = bucket_of n k (omega arith) (omega (arith, m, l)) in
        let (c, e) = bucket_of n j (omega arith) (omega (arith, l)) in
        v.apart c b j k e f (omega (arith, m)))

    placed-others :
        (j : ℕ) → All (λ (s : ℕ). s ≢ j) (symbols_from a 0 (below n all)) → get_or lens j 0 ≡ 0
    placed-others j away = elim (Bool-cases (ltb j n)) [
      | inr t ↦ get_or-behind lens j (omega (arith, v.room_lens, ltb→ge j n t))
      | inl t ↦
          let l : j < length all = omega (arith, ltb→lt j n t, size) in
          elim (Bool-cases (get_or all j 0 == 0)) [
            | inl u ↦ v.unused j l ((==_iff (get_or all j 0) 0).0 u)
            | inr u ↦
                let (k, f, e) = v.found j l (ground (arith, u)) in
                let inside : k < 0 + below n all = omega (
                  arith,
                  f.upto,
                  below-suc (get_or all j 0) all f.used,
                  below_mono (suc (get_or all j 0)) n all (omega (arith, f.inside)),
                ) in
                absurd (
                  symbols_from-All (λ (s : ℕ). s ≢ j) a 0 (below n all) k away (omega arith) inside
                    e)
          ]
    ]

    placed-used :
        (s : ℕ) → s < n → 0 < get_or all s 0 → 0 < count_of s (symbols_from a 0 (below n all))
    placed-used s l pos =
        let m = below n all in
        let (k, f, e) = v.found s (omega (arith, l, size)) pos in
        let inside : k < 0 + m = omega (
          arith,
          f.upto,
          below-suc (get_or all s 0) all f.used,
          below_mono (suc (get_or all s 0)) n all (omega (arith, f.inside)),
        ) in
        elim (Bool-cases (ltb 0 (count_of s (symbols_from a 0 m)))) [
          | inl t ↦ ltb→lt 0 (count_of s (symbols_from a 0 m)) t
          | inr t ↦
              let none = ltb→ge 0 (count_of s (symbols_from a 0 m)) t in
              let away : All (λ (i : ℕ). i ≢ s) (symbols_from a 0 m) =
                All-of_counts (λ (i : ℕ). i ≢ s) (symbols_from a 0 m)
                  (λ i some same. absurd (
                    omega
                      (arith, none, some, ap (λ (j : ℕ). count_of j (symbols_from a 0 m)) same))) in
              absurd (symbols_from-All (λ (i : ℕ). i ≢ s) a 0 m k away (omega arith) inside e)
        ]

    placed-end : get_or counters (n - 1) 0 ≡ below n all
    placed-end =
        let e : suc (n - 1) ≡ n = omega (arith, least) in
        v.at (n - 1) (omega (arith, least)) (omega (arith, least))
        ∙ sym (below-suc (n - 1) all (omega (arith, least)))
        ∙ ap (λ (i : ℕ). below i all) e

    -- And after it.
    sort_range-Sorted :
        (start : ℕ) (freqs : List ℕ)
        → ((s : ℕ) → s < n → 0 < get_or freqs s 0 → 0 < get_or all s 0)
        → ((s : ℕ) → 0 < get_or all s 0 → 0 < get_or freqs s 0)
        → Sorted n freqs (below n all, lens, sort_range start (below n all) a)
    sort_range-Sorted start freqs bucket_pos used_pos =
        let m = below n all in
        let room : m ≤ length a = omega (arith, below-length n all, size, v.room_symout) in
        let counts = count_of-sort_range start m a room in
        let before = symbols_from a 0 m in
        let after = symbols_from (sort_range start m a) 0 m in
        record {
          used = record {
            apart = same_counts-Distinct before after counts placed-Distinct;
            inside =
                same_counts-All (λ (s : ℕ). s < length lens) before after counts
                  (All-symbols_from (λ (s : ℕ). s < length lens) a 0 m
                    (λ k g l. omega (arith, placed-lt k (omega (arith, l)), v.room_lens)));
            others = λ j away.
                placed-others j
                  (same_counts-All (λ (s : ℕ). s ≢ j) after before (λ s. sym (counts s)) away);
          };
          room = omega (arith, length-sort_range start m a room, v.room_symout);
          size = v.room_lens;
          few = omega (arith, below-length n all, size);
          only_used =
              same_counts-All (λ (s : ℕ). 0 < get_or freqs s 0) before after counts
                (All-symbols_from (λ (s : ℕ). 0 < get_or freqs s 0) a 0 m
                  (λ k g l.
                    let (b, f) = bucket_of n k (omega arith) (omega (arith, l)) in
                    used_pos (symbol a k) (v.some b k f)));
          all_used = λ s l pos. omega (arith, counts s, placed-used s l (bucket_pos s l pos));
        }

-- The entries that `sort_symbols` returns hold each symbol that has a frequency once, and no other
-- symbol; the lengths of the other symbols are zero. There are between 2 and 288 symbols, and the slices have an entry for each.
pub sort_symbols-Sorted :
    (num_syms : ℕ) (freqs lens symout : List ℕ)
    → 2 ≤ num_syms
    → num_syms ≤ 288
    → length freqs ≡ num_syms
    → length lens ≡ num_syms
    → num_syms ≤ length symout
    → Sorted num_syms freqs (sort_symbols num_syms freqs lens symout)
unfolding sort_symbols
sort_symbols-Sorted n freqs lens symout least most size size_lens room =
    let all = buckets n freqs in
    let whole : take n freqs ≡ freqs = take_all n freqs (omega (arith, size)) in
    let total : length all ≡ n = length-buckets n freqs ∙ size in
    let counters = counters_of n (counted_of n freqs) in
    let start : Placed n all [] counters lens symout = record {
      part = λ b. omega arith;
      at = λ b pos h. omega (arith, counters-below n freqs least most size b pos h);
      room_counters = omega (arith, size-counters n freqs least most size, most);
      room_symout = room;
      room_lens = size_lens;
      seen = λ b k f. absurd (omega (arith, f.from, f.upto));
      some = λ b k f. absurd (omega (arith, f.from, f.upto));
      apart = λ b c k j f g. absurd (omega (arith, f.from, f.upto));
      found = λ s h. absurd (omega (arith, h));
      unused = λ s h. absurd (omega (arith, h));
    } in
    let end = place-all n all least most total freqs [] counters lens symout refl start in
    let r = place n 0 freqs counters lens symout in
    rw
      (
        whole,
        used-eq n freqs least most size,
        le→leb 2 n least,
        placed-end n all least most total r.0 r.1 r.2 end,
      )
      (sort_range-Sorted n all least most total r.0 r.1 r.2 end (get_or r.0 (n - 2) 0) freqs
        (λ s l pos. get_or-buckets n freqs s (omega (arith, l, size)) least pos)
        (buckets-used n freqs))
