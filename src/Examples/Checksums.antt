-- ===== src/Examples/Checksums.antt =====
-- The theorems on the CRC-32 of src/checksum/crc32.rs at concrete inputs.
use zenflate.Prelude.{[], ◌∷◌, arith, ◌≡◌}
use zenflate.Checksum.Crc32.{crc32, crc32_slice8, crc32_combine, combine, finalize, new}
use zenflate.Checksum.Crc32.Register.{register, crc32_slice8-register}
use zenflate.Checksum.Crc32.Combine.{crc32_combine_lem, feed, finalize-combine}

crc32_slice8-register_example :
    crc32_slice8 0xffffffff (97 ∷ 98 ∷ []) ≡ register 0xffffffff (97 ∷ 98 ∷ [])
crc32_slice8-register_example =
    crc32_slice8-register 0xffffffff (97 ∷ 98 ∷ []) (omega arith) (omega arith, (omega arith, tt))

crc32_combine_lem_example :
    crc32_combine (crc32 0 (97 ∷ [])) (crc32 0 (98 ∷ [])) 1 ≡ crc32 0 (97 ∷ 98 ∷ [])
crc32_combine_lem_example =
    crc32_combine_lem (97 ∷ []) (98 ∷ []) (omega arith, tt) (omega arith, tt)

finalize-combine_example :
    finalize (combine 32 (feed new ((97 ∷ []) ∷ [])) (feed new ((98 ∷ []) ∷ (99 ∷ []) ∷ [])))
    ≡ crc32 0 (97 ∷ 98 ∷ 99 ∷ [])
finalize-combine_example =
    finalize-combine 32 ((97 ∷ []) ∷ []) ((98 ∷ []) ∷ (99 ∷ []) ∷ []) ((omega arith, tt), tt)
      ((omega arith, tt), ((omega arith, tt), tt)) (omega arith) (omega arith)
