-- ===== src/Zk/Poseidon/Toy.antt =====
-- Tables for the tests, of the shape that 3, 4 and 16 inputs read.
use aca_py_did_kanon.Prelude.{[], ◌∷◌, arith, replicate}
use aca_py_did_kanon.Zk.Poseidon.{Constants}
use aca_py_did_kanon.Zk.Poseidon.Range.{FitsArity}

abbrev pub tables : Constants
tables = record {
  round_constants = [] ∷ [] ∷ replicate 14 (replicate 1300 1);
  mds = [] ∷ [] ∷ replicate 14 (replicate 17 (replicate 17 1));
}

pub tables-FitsArity_4 : FitsArity tables 4
tables-FitsArity_4 = record {
  has_constants = omega arith;
  has_mds = omega arith;
  enough_constants = omega arith;
  enough_rows = omega arith;
  long_rows = omega arith;
}

pub tables-FitsArity_16 : FitsArity tables 16
tables-FitsArity_16 = record {
  has_constants = omega arith;
  has_mds = omega arith;
  enough_constants = omega arith;
  enough_rows = omega arith;
  long_rows = omega arith;
}

pub tables-FitsArity_3 : FitsArity tables 3
tables-FitsArity_3 = record {
  has_constants = omega arith;
  has_mds = omega arith;
  enough_constants = omega arith;
  enough_rows = omega arith;
  long_rows = omega arith;
}
