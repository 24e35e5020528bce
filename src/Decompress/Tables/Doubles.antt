-- ===== src/Decompress/Tables/Doubles.antt =====
-- `add_double_literals` of src/decompress/mod.rs changes the table in place, from the top down.
use zenflate.Prelude.{
  ℕ, zero, suc, ◌/◌, ◌^◌, ◌≤◌, ◌<◌, bit_and, List, length, get_or, set, arith, ◌≡◌, refl, ap, ◌∙◌,
  length-set, get_or-set, get_or-set_above, get_or-set_below,
}
use native.Mathlib.Decide.{dec_lt}
use native.Mathlib.Nat.{div-le_self}
use zenflate.Decompress.Tables.{double_entry, double_from, add_double_literals}

shift_le : (i k : ℕ) → i / 2 ^ k ≤ i
shift_le i k = div-le_self i (2 ^ k)

-- The entry depends on the table up to its own place.
double_entry-set :
    (table : List ℕ) (bits n v i : ℕ)
    → i < n
    → double_entry (set table n v) bits i ≡ double_entry table bits i
unfolding double_entry
double_entry-set table bits n v i h =
    let e1 = get_or-set_below table n i v 0 h in
    let j = i / 2 ^ bit_and (get_or table i 0) 0xff in
    let e2 =
      get_or-set_below table n j v 0
        (omega (arith, shift_le i (bit_and (get_or table i 0) 0xff))) in
    rw (e1, e2) refl

double_from-above :
    (n : ℕ) (table : List ℕ) (bits i : ℕ)
    → n ≤ i
    → get_or (double_from n table bits) i 0 ≡ get_or table i 0
unfolding double_from
double_from-above zero table bits i h = refl
double_from-above (suc n) table bits i h =
    double_from-above n (set table n (double_entry table bits n)) bits i (omega arith)
    ∙ get_or-set_above table n i (double_entry table bits n) 0 (omega arith)

double_from-below :
    (n : ℕ) (table : List ℕ) (bits i : ℕ)
    → n ≤ length table
    → i < n
    → get_or (double_from n table bits) i 0 ≡ double_entry table bits i
unfolding double_from
double_from-below zero table bits i h g = absurd (omega arith)
double_from-below (suc n) table bits i h g =
    let v = double_entry table bits n in
    elim (dec_lt i n) [
      | yes l ↦
          double_from-below n (set table n v) bits i (omega (arith, length-set table n v)) l
          ∙ double_entry-set table bits n v i l
      | no ge ↦
          let e : i ≡ n = omega arith in
          ap (λ (t : ℕ). get_or (double_from n (set table n v) bits) t 0) e
          ∙ double_from-above n (set table n v) bits n (omega arith)
          ∙ get_or-set table n v 0 (omega arith)
          ∙ ap (λ (t : ℕ). double_entry table bits t) (omega arith)
    ]

-- In a table that is long enough for its index bits, and although it is changed in place, each
-- entry of the main table becomes what the table as it was before says: the second literal of a
-- pair is never read from an entry that was already doubled. The entries behind the main table
-- stay.
pub add_double_literals-from_old :
    (table : List ℕ) (bits i : ℕ)
    → 2 ^ bits ≤ length table
    → (i < 2 ^ bits → get_or (add_double_literals table bits) i 0 ≡ double_entry table bits i)
      × (2 ^ bits ≤ i → get_or (add_double_literals table bits) i 0 ≡ get_or table i 0)
unfolding add_double_literals
add_double_literals-from_old table bits i h =
    (double_from-below (2 ^ bits) table bits i h, double_from-above (2 ^ bits) table bits i)
