-- ===== src/Compress/BlockSplit.antt =====
-- src/compress/block_split.rs: the statistics that decide where a block ends, and the end of a block
-- chosen from the input alone. The counters are u32 and the products u64: they wrap.
pub mod Counts
pub mod Exact
pub mod Progress
use zenflate.Prelude.{
  ℕ, zero, suc, ◌+◌, ◌-◌, ◌*◌, ◌/◌, ◌%◌, ◌^◌, bit_and, bit_or, List, [], ◌∷◌, map, length, get_or,
  set, take, drop, replicate, leb, ltb, ◌==◌, ◌&&◌, ◌||◌, not, Bool, true, false, if◌then◌else◌,
}
use zenflate.Prelude.Words.{add32, sub32, add64, sub64, mul64}
use zenflate.Prelude.Range.{range}
use zenflate.Outcome.{Outcome, ok, panic, out_of_fuel}
use zenflate.Compress.{min_block_length}

abbrev pub num_literal_observation_types : ℕ
num_literal_observation_types = 8

abbrev pub num_observation_types : ℕ
num_observation_types = 10

abbrev pub num_observations_per_block_check : ℕ
num_observations_per_block_check = 512

pub record BlockSplitStats : Type 0 where
  pub new_observations : List ℕ
  pub observations : List ℕ
  pub num_new_observations : ℕ
  pub num_observations : ℕ

abbrev pub no_observations : List ℕ
no_observations = replicate num_observation_types 0

unfoldable pub new : BlockSplitStats
new = record {
  new_observations = no_observations;
  observations = no_observations;
  num_new_observations = 0;
  num_observations = 0;
}

-- `counts[k] += 1`
unfoldable pub bump : List ℕ → ℕ → List ℕ
bump counts k = set counts k (add32 (get_or counts k 0) 1)

unfoldable pub literal_type : ℕ → ℕ
literal_type lit = bit_or (bit_and (lit / 2 ^ 5) 6) (bit_and lit 1)

unfoldable pub observe_literal : BlockSplitStats → ℕ → BlockSplitStats
unfolding bump literal_type
observe_literal s lit = record s {
  new_observations = bump s.new_observations (literal_type lit);
  num_new_observations = add32 s.num_new_observations 1;
}

unfoldable pub match_type : ℕ → ℕ
match_type len = num_literal_observation_types + (if leb 9 len then 1 else 0)

unfoldable pub observe_match : BlockSplitStats → ℕ → BlockSplitStats
unfolding bump match_type
observe_match s len = record s {
  new_observations = bump s.new_observations (match_type len);
  num_new_observations = add32 s.num_new_observations 1;
}

-- `a[i] += b[i]` for every i
unfoldable pub add_counts : List ℕ → List ℕ → List ℕ
add_counts [] bs = []
add_counts (a ∷ rest) [] = a ∷ rest
add_counts (a ∷ rest) (b ∷ bs) = add32 a b ∷ add_counts rest bs

unfoldable pub merge_new_observations : BlockSplitStats → BlockSplitStats
unfolding add_counts
merge_new_observations s = record {
  new_observations = no_observations;
  observations = add_counts s.observations s.new_observations;
  num_new_observations = 0;
  num_observations = add32 s.num_observations s.num_new_observations;
}

unfoldable pub ready_to_check : BlockSplitStats → ℕ → ℕ → ℕ → Bool
ready_to_check s in_block_begin in_next in_end =
    leb num_observations_per_block_check s.num_new_observations
    && leb min_block_length (sub64 in_next in_block_begin)
    && leb min_block_length (sub64 in_end in_next)

abbrev pub abs_diff : ℕ → ℕ → ℕ
abs_diff a b = if ltb a b then b - a else a - b

-- The loop over the types; `total` is `total_delta`.
unfoldable pub total_delta : ℕ → ℕ → ℕ → List ℕ → List ℕ → ℕ
total_delta num_observations num_new total [] bs = total
total_delta num_observations num_new total (a ∷ rest) [] = total
total_delta num_observations num_new total (a ∷ rest) (b ∷ bs) =
    let expected = mul64 a num_new in
    let actual = mul64 b num_observations in
    total_delta num_observations num_new (add64 total (abs_diff actual expected)) rest bs

unfoldable pub cutoff_for : BlockSplitStats → ℕ → ℕ
cutoff_for s block_length =
    let num_items = add32 s.num_observations s.num_new_observations in
    let cutoff = mul64 (mul64 s.num_new_observations 200 / 512) s.num_observations in
    if ltb block_length 10000 && ltb num_items 8192
    then add64 cutoff (mul64 cutoff (sub32 8192 num_items) / 8192)
    else cutoff

-- `total_delta + (block_length as u64 / 4096) * self.num_observations as u64 >= cutoff`
unfoldable pub differs : BlockSplitStats → ℕ → Bool
unfolding total_delta cutoff_for
differs s block_length =
    let total =
      total_delta s.num_observations s.num_new_observations 0 s.observations s.new_observations in
    leb (cutoff_for s block_length) (add64 total (mul64 (block_length / 4096) s.num_observations))

-- `block_length` is a u32.
unfoldable pub do_end_block_check : BlockSplitStats → ℕ → Bool × BlockSplitStats
unfolding differs merge_new_observations
do_end_block_check s block_length =
    if ltb 0 s.num_observations && differs s block_length
    then (true, s)
    else (false, merge_new_observations s)

unfoldable pub should_end_block : BlockSplitStats → ℕ → ℕ → ℕ → Bool × BlockSplitStats
unfolding ready_to_check do_end_block_check
should_end_block s in_block_begin in_next in_end =
    if not (ready_to_check s in_block_begin in_next in_end)
    then (false, s)
    else do_end_block_check s (sub64 in_next in_block_begin % 2 ^ 32)

unfoldable pub literal_category : List ℕ
unfolding literal_type
literal_category = map literal_type (range 0 256)

-- `matches!(data.get(i + 1..i + 5), Some([b, b, b, b]))`, for the bytes behind the i-th.
unfoldable pub starts_run : ℕ → List ℕ → Bool
starts_run b (b1 ∷ b2 ∷ b3 ∷ b4 ∷ rest) = b1 == b && b2 == b && b3 == b && b4 == b
starts_run b bytes = false

-- `while r < 258 && i + r < data.len() && data[i + r] == b`
unfoldable pub run_end : ℕ → ℕ → List ℕ → ℕ
run_end b r [] = r
run_end b r (x ∷ xs) = let more = run_end b (r + 1) xs in if ltb r 258 && x == b then more else r

-- The local variables of the loop.
pub record Seen : Type 0 where
  pub stats : BlockSplitStats
  pub hist : List ℕ
  pub n : ℕ

-- A round up to `i += …`: the bytes it takes, from the byte and the bytes behind it.
unfoldable pub observe_input : Seen → ℕ → List ℕ → ℕ × Seen
unfolding bump literal_category starts_run run_end
observe_input s b bytes =
    let hist1 = bump s.hist (get_or literal_category b 0) in
    if starts_run b bytes
    then (let r = run_end b 5 (drop 4 bytes) in
        let k = num_literal_observation_types + (if ltb 9 r then 1 else 0) in
        (r, record s { hist = bump hist1 k; n = add32 (add32 s.n 1) 1 }))
    else (1, record s { hist = hist1; n = add32 s.n 1 })

-- `if n >= NUM_OBSERVATIONS_PER_BLOCK_CHECK`; whether the block ends at `in_next`.
unfoldable pub end_test : Seen → ℕ → ℕ → ℕ → Bool × Seen
unfolding add_counts should_end_block
end_test s begin in_next end =
    if not (leb num_observations_per_block_check s.n)
    then (false, s)
    else let stats1 : BlockSplitStats = record s.stats {
      new_observations = add_counts s.stats.new_observations s.hist;
      num_new_observations = add32 s.stats.num_new_observations s.n;
    } in
      let r = should_end_block stats1 begin in_next end in
      (r.0, record { stats = r.1; hist = no_observations; n = 0 })

-- `max_end`
unfoldable pub max_end_for : ℕ → ℕ → ℕ → ℕ
max_end_for begin end max_len =
    if leb (sub64 end begin) (add64 max_len min_block_length) then end else add64 begin max_len

module _ {ℓ} {E : Type ℓ} where
  -- `while i < data.len()`, `rest` the bytes from `i`. A round takes a byte at least.
  unfoldable pub block_end_loop : ℕ → Seen → ℕ → ℕ → ℕ → ℕ → List ℕ → Outcome E ℕ
  unfolding observe_input end_test
  block_end_loop fuel s begin end max_end i [] = ok max_end
  block_end_loop zero s begin end max_end i (b ∷ bytes) = out_of_fuel
  block_end_loop (suc fuel) s begin end max_end i (b ∷ bytes) =
      let seen = observe_input s b bytes in
      let i' = i + seen.0 in
      let t = end_test seen.1 begin (begin + i') end in
      let rest = block_end_loop fuel t.1 begin end max_end i' (drop seen.0 (b ∷ bytes)) in
      if t.0 then ok (begin + i') else rest

  -- From `let data = &input[begin..max_end]` on.
  unfoldable pub block_end_within : List ℕ → ℕ → ℕ → ℕ → Outcome E ℕ
  unfolding block_end_loop new
  block_end_within input begin end max_end =
      let bytes = take (max_end - begin) (drop begin input) in
      let s : Seen = record { stats = new; hist = no_observations; n = 0 } in
      if ltb max_end begin || ltb (length input) max_end
      then panic
      else block_end_loop (length bytes) s begin end max_end 0 bytes

  unfoldable pub input_block_end : List ℕ → ℕ → ℕ → ℕ → Outcome E ℕ
  unfolding max_end_for block_end_within
  input_block_end input begin end max_len =
      block_end_within input begin end (max_end_for begin end max_len)
