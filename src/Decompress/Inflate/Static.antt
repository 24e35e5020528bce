-- ===== src/Decompress/Inflate/Static.antt =====
-- The static Huffman block of src/decompress/mod.rs: its fixed codes, and the tables of them. With
-- `std` the tables are built once in a process, on a fresh decompressor, and copied; the model
-- builds them at each use, since the result is the same.
use zenflate.Prelude.{ℕ, List, Bool, true, false}
use zenflate.Outcome.{ok, err, panic, out_of_fuel, bad_data}
use zenflate.Decompress.State.{new, Exec, pure, gets, modify, ensure, ◌>>=◌, ◌>>◌, skip_bits}
use zenflate.Decompress.Inflate.Dynamic.{set_d, fill_lens, build_offset, build_litlen, set_doubles}

module _ {ℓ} {R : Type ℓ} where
  unfoldable pub build_static_tables : Exec R Bool
  unfolding fill_lens build_offset build_litlen
  build_static_tables = do
    fill_lens 0 144 8
    fill_lens 144 112 9
    fill_lens 256 24 7
    fill_lens 280 8 8
    fill_lens 288 32 5
    offset_built ← build_offset 288 32
    elim offset_built [ true ↦ build_litlen 288 | false ↦ pure false ]

  -- The `OnceLock`: a run on a decompressor of its own, whose tables are copied if they were built,
  -- and the tables built in place otherwise.
  unfoldable pub load_static_tables : Exec R Bool
  unfolding build_static_tables new
  load_static_tables s =
      let cached = build_static_tables (record s { d = new }) in
      let (built, t) = cached in
      elim built [
        | ok b ↦ elim b [
          | true ↦ (
            ok true,
            set_d s (record s.d {
              litlen_decode_table = t.d.litlen_decode_table;
              offset_decode_table = t.d.offset_decode_table;
              litlen_tablebits = t.d.litlen_tablebits;
            }),
          )
          | false ↦ build_static_tables s
        ]
        | err e ↦ (err e, s)
        | panic ↦ (panic, s)
        | out_of_fuel ↦ (out_of_fuel, s)
      ]

  unfoldable pub static_block : List ℕ → Exec R (Unit {0})
  unfolding load_static_tables set_doubles skip_bits
  static_block input = do
    skip_bits 3
    loaded ← gets (λ s. s.d.static_codes_loaded)
    elim loaded [
      | true ↦ pure tt
      | false ↦ do
        modify (λ s. set_d s (record s.d { static_codes_loaded = true }))
        built ← load_static_tables
        ensure built bad_data
        set_doubles input
    ]
