-- ===== src/Zk/MerkleKeccak/Layers.antt =====
-- What one layer of the sorted-pair tree says about the next.
use Prim.Native.Nat.{bit_xor}
use aca_py_did_kanon.Prelude.{
  ℕ, zero, suc, ◌+◌, ◌/◌, ◌<◌, ◌≡◌, List, [], ◌∷◌, ◌++◌, arith, ltb, if◌then◌else◌, length, get_or,
  All, Bool-cases, inl, inr, Bytes, bytes_lt, bytes_lt_asymm, eq_of_not_lt,
}
use aca_py_did_kanon.Prelude.Bits.{bit_xor-one}
use aca_py_did_kanon.Zk.MerkleKeccak.{hash_pair, next_layer}

module _ (keccak : Bytes → Bytes) where
  -- The order of a pair does not matter.
  pub hash_pair_comm : (a b : Bytes) → hash_pair keccak a b ≡ hash_pair keccak b a
  unfolding hash_pair
  hash_pair_comm a b = elim (Bool-cases (bytes_lt a b)) [
    | inl h ↦ rw (h, bytes_lt_asymm a b h)
    | inr h ↦ elim (Bool-cases (bytes_lt b a)) [
      | inl k ↦ rw (h, k)
      | inr k ↦ rw (eq_of_not_lt a b h k)
    ]
  ]

  -- A node with a neighbour is hashed with it, in either order; a last node alone is kept.
  pub get_or-next_layer :
      (layer : List Bytes) (i : ℕ)
      → i < length layer
      → get_or (next_layer keccak layer) (i / 2) [] ≡ (
          if ltb (bit_xor i 1) (length layer)
          then hash_pair keccak (get_or layer i []) (get_or layer (bit_xor i 1) [])
          else get_or layer i [])
  unfolding next_layer
  get_or-next_layer [] i h = elim h [ ]
  get_or-next_layer (a ∷ []) zero h = ground arith
  get_or-next_layer (a ∷ []) (suc i) h = absurd (omega arith)
  get_or-next_layer (a ∷ b ∷ rest) zero h = ground arith
  get_or-next_layer (a ∷ b ∷ rest) (suc zero) h = ground (arith, hash_pair_comm a b)
  get_or-next_layer (a ∷ b ∷ rest) (suc (suc i)) h =
      let half : suc (suc i) / 2 ≡ suc (i / 2) = omega arith in
      let other : bit_xor (suc (suc i)) 1 ≡ suc (suc (bit_xor i 1)) =
        omega (arith, bit_xor-one i, bit_xor-one (suc (suc i))) in
      rw (half, other) (ground (arith, get_or-next_layer rest i (omega arith)))

  pub length-next_layer :
      (layer : List Bytes) → length (next_layer keccak layer) ≡ (length layer + 1) / 2
  unfolding next_layer
  length-next_layer [] = omega arith
  length-next_layer (a ∷ []) = omega arith
  length-next_layer (a ∷ b ∷ rest) = omega (arith, length-next_layer rest)

abbrev pub IsBytes32 : Bytes → Type 0
IsBytes32 b = length b ≡ 32

module _ (keccak : Bytes → Bytes) (digest : (b : Bytes) → length (keccak b) ≡ 32) where
  pub hash_pair-IsBytes32 : (a b : Bytes) → IsBytes32 (hash_pair keccak a b)
  unfolding hash_pair
  hash_pair-IsBytes32 a b = ground (arith, digest (a ++ b), digest (b ++ a))

  pub next_layer-IsBytes32 :
      (layer : List Bytes) → All IsBytes32 layer → All IsBytes32 (next_layer keccak layer)
  unfolding next_layer
  next_layer-IsBytes32 [] h = tt
  next_layer-IsBytes32 (a ∷ []) h = h
  next_layer-IsBytes32 (a ∷ b ∷ rest) h = (hash_pair-IsBytes32 a b, next_layer-IsBytes32 rest h.1.1)
