-- ===== src/Zk/MerklePoseidon/Tests.antt =====
-- The theorems on the sparse tree at a tree of depth 2 with three leaves.
use aca_py_did_kanon.Prelude.{ℕ, ◌≡◌, refl, true, none, List, [], ◌∷◌, arith, replicate, ok}
use aca_py_did_kanon.Zk.Poseidon.{Constants}
use aca_py_did_kanon.Zk.Poseidon.Range.{FitsArity}
use aca_py_did_kanon.Zk.MerklePoseidon.{
  PoseidonProof, PoseidonMerkleTree, insert_all, new, root, proof_for_index, verify,
}
use aca_py_did_kanon.Zk.MerklePoseidon.Proofs.{
  padded_leaf, full_node, root-eq-full_node, verify-padded_leaf,
}

-- Tables of the shape that three inputs read.
abbrev tables : Constants
tables = record {
  round_constants = [] ∷ [] ∷ replicate 256 1 ∷ [];
  mds = [] ∷ [] ∷ replicate 4 (replicate 4 1) ∷ [];
}

tables-FitsArity : FitsArity tables 3
tables-FitsArity = record {
  has_constants = omega arith;
  has_mds = omega arith;
  enough_constants = omega arith;
  enough_rows = omega arith;
  long_rows = omega arith;
}

abbrev three : List ℕ
three = 5 ∷ 6 ∷ 7 ∷ []

abbrev tree : PoseidonMerkleTree
tree = record { depth = 2; leaves = three; nodes = insert_all tables 2 0 three (λ _ _. none) }

three_built : new tables 2 three ≡ ok tree
unfolding new
three_built = refl

root-eq-full_node_example : root tables tree ≡ full_node tables three 2 0
root-eq-full_node_example = root-eq-full_node tables 2 three tree three_built

verify-padded_leaf_example :
    (p : PoseidonProof) × (proof_for_index tables tree 3 ≡ ok p)
    × (verify tables (padded_leaf three 3) p (root tables tree) ≡ true)
verify-padded_leaf_example =
    verify-padded_leaf tables 2 three tree 3 tables-FitsArity three_built (omega arith)

abbrev one_step : PoseidonProof
one_step = record { path_elements = 7 ∷ []; path_indices = 0 ∷ [] }
