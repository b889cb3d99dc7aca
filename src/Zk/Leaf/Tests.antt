-- ===== src/Zk/Leaf/Tests.antt =====
-- The leaf primitives at small values.
use aca_py_did_kanon.Prelude.{ℕ, ◌≡◌, refl, replicate, ok}
use aca_py_did_kanon.Contracts.Convert.{raw}
use aca_py_did_kanon.Zk.Poseidon.Range.{IsFelt}
use aca_py_did_kanon.Zk.Poseidon.Toy.{tables, tables-FitsArity_4, tables-FitsArity_16}
use aca_py_did_kanon.Zk.Leaf.{compute_zk_leaf, compute_zk_leaf-IsFelt}

compute_zk_leaf-IsFelt_example :
    (x : ℕ) × (compute_zk_leaf tables (raw (replicate 32 9)) (raw (replicate 32 1)) (replicate 16 5)
      ≡ ok x)
    × IsFelt x
compute_zk_leaf-IsFelt_example =
    compute_zk_leaf-IsFelt tables (replicate 32 9) (replicate 32 1) (replicate 16 5)
      tables-FitsArity_4 tables-FitsArity_16 refl refl refl
