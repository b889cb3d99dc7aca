-- ===== src/Zk/Blake1/Tests.antt =====
-- The padding of a rest of 111 bytes, and the theorems at short data.
use aca_py_did_kanon.Prelude.{
  ℕ, ◌+◌, ◌*◌, ◌%◌, ◌<◌, ◌≡◌, [], ◌∷◌, ◌++◌, arith, length, replicate, if◌then◌else◌, leb, Bytes,
}
use aca_py_did_kanon.Prelude.Words.{to_be}
use aca_py_did_kanon.Zk.Blake1.{absorb, start, padded}
use aca_py_did_kanon.Zk.Blake1.Padding.{absorb_lem, padded_lem}

abbrev long_rest : Bytes
long_rest = replicate 111 7

absorb_lem_example :
    (length (absorb 111 (start long_rest)).rem < 128)
    × ((absorb 111 (start long_rest)).offset + length (absorb 111 (start long_rest)).rem ≡ 111)
    × ((absorb 111 (start long_rest)).offset % 128 ≡ 0)
    × ((absorb 111 (start long_rest)).t_counter ≡ (absorb 111 (start long_rest)).offset * 8)
absorb_lem_example = absorb_lem long_rest

padded_lem_example :
    (z : ℕ) × (padded long_rest 888
      ≡ (long_rest ++ 128 ∷ []) ++ (replicate z 0 ++ (1 ∷ (to_be 8 0 ++ to_be 8 888))))
    × (length (padded long_rest 888) ≡ (if leb (length long_rest) 110 then 128 else 256))
padded_lem_example = padded_lem long_rest 888 (omega arith)
