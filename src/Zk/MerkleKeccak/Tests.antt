-- ===== src/Zk/MerkleKeccak/Tests.antt =====
-- Runs of the sorted-pair tree, and its theorems at a tree of three leaves.
use aca_py_did_kanon.Prelude.{
  ℕ, ◌+◌, ◌*◌, ◌%◌, ◌≡◌, refl, true, List, [], ◌∷◌, arith, length, replicate, length-replicate,
  Bytes, ok, err, value_error,
}
use aca_py_did_kanon.Zk.MerkleKeccak.{
  OzStandardMerkleTree, root, proof_for_index, build_layers, new, verify, next_layer, layers_above,
  all_bytes32,
}
use aca_py_did_kanon.Zk.MerkleKeccak.Paths.{verify-proof_for_index}

-- A stand-in for the hash: 32 bytes that depend on the input.
checksum : Bytes → ℕ
checksum [] = 7
checksum (b ∷ bs) = (b + 31 * checksum bs) % 251

toy_keccak : Bytes → Bytes
toy_keccak b = replicate 32 (checksum b)

toy_keccak_digest : (b : Bytes) → length (toy_keccak b) ≡ 32
unfolding toy_keccak
toy_keccak_digest b = length-replicate 32 (checksum b)

abbrev three_leaves : List Bytes
three_leaves = replicate 32 1 ∷ replicate 32 2 ∷ replicate 32 3 ∷ []

abbrev tree_of_three : OzStandardMerkleTree
tree_of_three = record { leaves = three_leaves; layers = build_layers toy_keccak three_leaves }

three_built : new toy_keccak three_leaves ≡ ok tree_of_three
unfolding new all_bytes32
three_built = refl

-- The odd third leaf moves up one layer unchanged.
layers_of_three : length (tree_of_three.layers) ≡ 3
unfolding build_layers layers_above next_layer
layers_of_three = refl

short_refused : new toy_keccak ((1 ∷ []) ∷ []) ≡ err value_error
unfolding new all_bytes32
short_refused = refl

verify-proof_for_index_example :
    verify toy_keccak (replicate 32 3) (proof_for_index tree_of_three 2) (root tree_of_three) ≡ true
verify-proof_for_index_example =
    verify-proof_for_index toy_keccak toy_keccak_digest three_leaves tree_of_three 2 three_built
      (omega arith)
