-- ===== src/Zk/Poseidon/Tests.antt =====
-- The hash at small tables.
use aca_py_did_kanon.Prelude.{◌≡◌, refl, [], ◌∷◌, arith, replicate, err, index_error}
use aca_py_did_kanon.Zk.Poseidon.{Constants, pow5, index, poseidon_hash}
use aca_py_did_kanon.Zk.Poseidon.Range.{FitsArity}

-- Tables of the shape that one input reads.
abbrev small_tables : Constants
small_tables = record {
  round_constants = replicate 128 5 ∷ [];
  mds = ((3 ∷ 1 ∷ []) ∷ (1 ∷ 2 ∷ []) ∷ []) ∷ [];
}

small_tables-FitsArity : FitsArity small_tables 1
small_tables-FitsArity = record {
  has_constants = omega arith;
  has_mds = omega arith;
  enough_constants = omega arith;
  enough_rows = omega arith;
  long_rows = omega arith;
}

pow5_two : pow5 2 ≡ 32
unfolding pow5
pow5_two = refl

-- Tables that are too short for the arity raise IndexError.
poseidon_hash_short_tables : poseidon_hash small_tables (1 ∷ 2 ∷ []) ≡ err index_error
unfolding poseidon_hash index
poseidon_hash_short_tables = refl
