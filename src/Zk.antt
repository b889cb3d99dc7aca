-- ===== src/Zk.antt =====
-- The package zk: trees, hashes, signatures and the issuer's state.
pub mod Poseidon
pub mod Leaf
pub mod Attributes
pub mod MerkleKeccak
pub mod MerklePoseidon
pub mod Issuer
pub mod IssuerKey
pub mod Blake1
pub mod Witness
pub mod Prover
pub mod Verifier
pub mod BabyJubjub
pub mod Eddsa
pub mod ModeB
