-- ===== src/Zk/MerkleKeccak.antt =====
-- zk/merkle_keccak.py: the Merkle tree with sorted pairs. `keccak` is `Web3.keccak`.
pub mod Layers
pub mod Paths
pub mod Size
mod Tests
use Prim.Native.Nat.{bit_xor}
use aca_py_did_kanon.Prelude.{
  ℕ, zero, suc, ◌/◌, Bool, true, false, not, ◌&&◌, Option, none, some, List, [], ◌∷◌, ◌++◌, ltb,
  ◌==◌, if◌then◌else◌, length, get_or, replicate, Bytes, bytes_eq, bytes_lt, Result, ok, err,
  value_error, ◌>>◌, raise_if,
}

pub record OzStandardMerkleTree : Type 0 where
  pub leaves : List Bytes
  pub layers : List (List Bytes)

abbrev pub is_bytes32 : Bytes → Bool
is_bytes32 b = length b == 32

-- The check of `__init__` on every leaf.
unfoldable pub all_bytes32 : List Bytes → Bool
all_bytes32 [] = true
all_bytes32 (leaf ∷ leaves) = is_bytes32 leaf && all_bytes32 leaves

-- `self._leaves.index(leaf)`
unfoldable pub index_of : Bytes → List Bytes → Option ℕ
index_of leaf [] = none
index_of leaf (x ∷ xs) =
    let later : Option ℕ = elim (index_of leaf xs) [ none ↦ none | some i ↦ some (suc i) ] in
    if bytes_eq x leaf then some 0 else later

-- `self._layers[-1][0]`, from a layer and those above it. A layer is never empty.
unfoldable pub top_of : List Bytes → List (List Bytes) → Bytes
top_of layer [] = get_or layer 0 []
top_of layer (next ∷ above) = top_of next above

abbrev pub root : OzStandardMerkleTree → Bytes
root t = elim t.layers [ [] ↦ replicate 32 0 | layer ∷ above ↦ top_of layer above ]

-- The loop over `self._layers[:-1]`, from a layer and those above it.
unfoldable pub siblings : List Bytes → List (List Bytes) → ℕ → List Bytes
siblings layer [] idx = []
siblings layer (next ∷ above) idx =
    let proof = siblings next above (idx / 2) in
    if ltb (bit_xor idx 1) (length layer) then get_or layer (bit_xor idx 1) [] ∷ proof else proof

abbrev pub proof_for_index : OzStandardMerkleTree → ℕ → List Bytes
proof_for_index t idx = elim t.layers [ [] ↦ [] | layer ∷ above ↦ siblings layer above idx ]

unfoldable pub proof_for : OzStandardMerkleTree → Bytes → Result (List Bytes)
proof_for t leaf = elim (index_of leaf t.leaves) [
  | none ↦ err value_error
  | some idx ↦ ok (proof_for_index t idx)
]

module _ (keccak : Bytes → Bytes) where
  unfoldable pub hash_pair : Bytes → Bytes → Bytes
  hash_pair a b = if bytes_lt a b then keccak (a ++ b) else keccak (b ++ a)

  -- One round of the outer loop of `_build_layers`: an odd last node moves up unchanged.
  unfoldable pub next_layer : List Bytes → List Bytes
  next_layer [] = []
  next_layer (a ∷ []) = a ∷ []
  next_layer (a ∷ b ∷ rest) = hash_pair a b ∷ next_layer rest

  -- The layers that `while len(layers[-1]) > 1` appends, on fuel.
  unfoldable pub layers_above : ℕ → List Bytes → List (List Bytes)
  layers_above zero layer = []
  layers_above (suc fuel) layer = elim (ltb 1 (length layer)) [
    | true ↦ next_layer layer ∷ layers_above fuel (next_layer layer)
    | false ↦ []
  ]

  -- Each round shortens the layer, so its length is fuel enough.
  unfoldable pub build_layers : List Bytes → List (List Bytes)
  build_layers [] = []
  build_layers (leaf ∷ leaves) =
      (leaf ∷ leaves) ∷ layers_above (length (leaf ∷ leaves)) (leaf ∷ leaves)

  -- `__init__`
  unfoldable pub new : List Bytes → Result OzStandardMerkleTree
  new leaves = do
    raise_if (not (all_bytes32 leaves)) value_error
    ok (record { leaves = leaves; layers = build_layers leaves })

  unfoldable pub fold_path : Bytes → List Bytes → Bytes → Bool
  fold_path computed [] top = bytes_eq computed top
  fold_path computed (sib ∷ proof) top =
      let rest = fold_path (hash_pair computed sib) proof top in
      if is_bytes32 sib then rest else false

  unfoldable pub verify : Bytes → List Bytes → Bytes → Bool
  verify leaf proof top = is_bytes32 leaf && (is_bytes32 top && fold_path leaf proof top)
