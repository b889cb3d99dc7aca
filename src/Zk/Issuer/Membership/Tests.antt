-- ===== src/Zk/Issuer/Membership/Tests.antt =====
-- The roots of a set of one leaf.
use aca_py_did_kanon.Prelude.{
  ℕ, ◌%◌, ◌≡◌, refl, true, none, List, [], ◌∷◌, arith, length, get_or, replicate, Bytes, ok,
}
use aca_py_did_kanon.Prelude.Dict.{keys, values}
use aca_py_did_kanon.Prelude.Hex.{to_hex, from_hex, hex_char, hex_digit, is_space}
use aca_py_did_kanon.Web3.Toy.{toy}
use aca_py_did_kanon.Zk.Poseidon.{bn254_prime}
use aca_py_did_kanon.Zk.Poseidon.Toy.{tables, tables-FitsArity_3}
use aca_py_did_kanon.Zk.MerkleKeccak
use aca_py_did_kanon.Zk.MerklePoseidon
use aca_py_did_kanon.Zk.Leaf.{felt_to_bytes32}
use aca_py_did_kanon.Zk.Issuer.State.{IssuerState}
use aca_py_did_kanon.Zk.Issuer.Roots.{
  from_hex_all, int16, int16_acc, int16_all, root_leaves, compute_keccak_root,
  compute_poseidon_root,
}
use aca_py_did_kanon.Zk.Issuer.Membership.{compute_keccak_root_lem, compute_poseidon_root_lem}

abbrev state_of_one : IssuerState
state_of_one = record {
  active = (to_hex (replicate 32 5), to_hex (replicate 32 3)) ∷ [];
  last_synced_block = 4;
}

abbrev companion : ℕ
companion = 1362259873380190534394952764808093033567882172536947812228912753034272113411

keccak_root : compute_keccak_root toy state_of_one ≡ ok (replicate 32 5)
unfolding compute_keccak_root root_leaves from_hex_all keys from_hex to_hex hex_char hex_digit
    is_space MerkleKeccak.new MerkleKeccak.all_bytes32 MerkleKeccak.build_layers
    MerkleKeccak.layers_above MerkleKeccak.top_of
keccak_root = refl

compute_keccak_root_lem_example :
    (leaf : Bytes) × (proof : List Bytes) × (from_hex (get_or (keys state_of_one.active) 0 [])
      ≡ ok leaf)
    × (MerkleKeccak.verify toy.keccak leaf proof (replicate 32 5) ≡ true)
unfolding keys
compute_keccak_root_lem_example =
    compute_keccak_root_lem toy state_of_one (replicate 32 5) 0 keccak_root (omega arith)

abbrev tree : MerklePoseidon.PoseidonMerkleTree
tree = record {
  depth = 26;
  leaves = companion ∷ [];
  nodes = MerklePoseidon.insert_all tables 26 0 (companion ∷ []) (λ l i. none);
}

read_companion : int16_all (values state_of_one.active) ≡ ok (companion ∷ [])
unfolding int16_all int16 int16_acc values to_hex hex_char hex_digit
read_companion = refl

built : MerklePoseidon.new tables 26 (companion ∷ []) ≡ ok tree
unfolding MerklePoseidon.new
built = refl

poseidon_root :
    compute_poseidon_root tables state_of_one
    ≡ ok (felt_to_bytes32 (MerklePoseidon.root tables tree))
unfolding compute_poseidon_root
poseidon_root = rw (read_companion, built, compute_poseidon_root) refl

compute_poseidon_root_lem_example :
    (top x : ℕ) × (proof : MerklePoseidon.PoseidonProof) × (felt_to_bytes32
        (MerklePoseidon.root tables tree)
      ≡ felt_to_bytes32 top)
    × (length proof.path_elements ≡ 26)
    × (length proof.path_indices ≡ 26)
    × (int16 (get_or (values state_of_one.active) 0 []) ≡ ok x)
    × (MerklePoseidon.verify tables (x % bn254_prime) proof top ≡ true)
unfolding values
compute_poseidon_root_lem_example =
    compute_poseidon_root_lem tables state_of_one
      (felt_to_bytes32 (MerklePoseidon.root tables tree)) 0 tables-FitsArity_3 poseidon_root
      (omega arith)
