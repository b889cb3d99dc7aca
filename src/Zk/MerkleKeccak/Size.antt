-- ===== src/Zk/MerkleKeccak/Size.antt =====
-- The size of a proof of the sorted-pair tree.
use aca_py_did_kanon.Prelude.{
  ℕ, zero, suc, ◌/◌, ◌^◌, ◌≤◌, ◌≡◌, List, [], ◌∷◌, arith, length, Bytes, ok, ge→ltb,
}
use native.Mathlib.Nat.{pow-suc}
use aca_py_did_kanon.Zk.MerkleKeccak.{
  OzStandardMerkleTree, siblings, proof_for_index, next_layer, layers_above, build_layers, new,
}
use aca_py_did_kanon.Zk.MerkleKeccak.Layers.{length-next_layer}

module _ (keccak : Bytes → Bytes) where
  length-siblings-le :
      (layer : List Bytes) (above : List (List Bytes)) (i : ℕ)
      → length (siblings layer above i) ≤ length above
  unfolding siblings
  length-siblings-le layer [] i = omega arith
  length-siblings-le layer (next ∷ above) i = ground (arith, length-siblings-le next above (i / 2))

  length-layers_above :
      (fuel k : ℕ) (layer : List Bytes)
      → length layer ≤ 2 ^ k
      → length (layers_above keccak fuel layer) ≤ k
  unfolding layers_above
  length-layers_above zero k layer h = omega arith
  length-layers_above (suc fuel) zero layer h =
      rw (ge→ltb 1 (length layer) h, layers_above) (omega arith)
  length-layers_above (suc fuel) (suc k) layer h =
      let half : length (next_layer keccak layer) ≤ 2 ^ k =
        omega (arith, length-next_layer keccak layer, pow-suc 2 k) in
      ground (arith, length-layers_above fuel k (next_layer keccak layer) half)

  -- A proof in a tree of at most 2 ^ k leaves has at most k siblings.
  pub length-proof_for_index :
      (leaves : List Bytes) (t : OzStandardMerkleTree) (k i : ℕ)
      → new keccak leaves ≡ ok t
      → length leaves ≤ 2 ^ k
      → length (proof_for_index t i) ≤ k
  unfolding build_layers new
  length-proof_for_index [] t k i h l = ground arith
  length-proof_for_index (x ∷ xs) t k i h l =
      let n = length (x ∷ xs) in
      let bound = length-layers_above n k (x ∷ xs) l in
      let short = length-siblings-le (x ∷ xs) (layers_above keccak n (x ∷ xs)) i in ground arith
