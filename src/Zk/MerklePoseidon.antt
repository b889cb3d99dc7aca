-- ===== src/Zk/MerklePoseidon.antt =====
-- zk/merkle_poseidon.py: the sparse Merkle tree of fixed depth.
pub mod Consistency
pub mod Proofs
pub mod Binding
mod Tests
use Prim.Native.Nat.{bit_and}
use aca_py_did_kanon.Prelude.{
  ℕ, zero, suc, ◌+◌, ◌-◌, ◌%◌, ◌/◌, ◌^◌, Bool, true, false, not, ◌&&◌, ◌||◌, Option, none, some,
  List, [], ◌∷◌, map, ltb, leb, ◌==◌, if◌then◌else◌, length, Result, ok, err, ◌>>◌, raise_if, ok_or,
  value_error,
}
use aca_py_did_kanon.Zk.Poseidon.{Constants, bn254_prime, poseidon_hash}

abbrev pub node_tag : ℕ
node_tag = 2

-- A Python number as a condition.
abbrev pub truthy : ℕ → Bool
truthy n = not (n == 0)

-- A hash of three inputs raises nothing (`poseidon_hash-IsFelt`), so the value alone is kept.
unfoldable pub hash_node : Constants → ℕ → ℕ → ℕ
hash_node k left right =
    ok_or 0 (poseidon_hash k (node_tag ∷ left % bn254_prime ∷ right % bn254_prime ∷ []))

pub record PoseidonProof : Type 0 where
  pub path_elements : List ℕ
  pub path_indices : List ℕ

-- The dicts `_nodes[level]`, by level and index; a key that was never set is `none`.
abbrev pub Nodes : Type 0
Nodes = ℕ → ℕ → Option ℕ

pub record PoseidonMerkleTree : Type 0 where
  pub depth : ℕ
  pub leaves : List ℕ
  pub nodes : Nodes

-- `self._nodes[level][idx] = v`
abbrev pub set_node : Nodes → ℕ → ℕ → ℕ → Nodes
set_node nodes level idx v l i = if l == level && i == idx then some v else nodes l i

-- The sides that `proof_for_index` appends, over `n` levels.
unfoldable pub path_indices_from : ℕ → ℕ → List ℕ
path_indices_from zero cur = []
path_indices_from (suc n) cur = bit_and cur 1 ∷ path_indices_from n (cur / 2)

module _ (k : Constants) where
  -- The table `_zeros`: `zeros[0] = 0`, `zeros[d] = H(zeros[d - 1], zeros[d - 1])`.
  unfoldable pub zeros : ℕ → ℕ
  zeros zero = 0
  zeros (suc d) = let z = zeros d in hash_node k z z

  unfoldable pub node_at : Nodes → ℕ → ℕ → ℕ
  node_at nodes level idx = elim (nodes level idx) [ none ↦ zeros level | some v ↦ v ]

  -- The loop of `_insert` over the `n` levels from `level` on.
  unfoldable pub update_parents : ℕ → ℕ → ℕ → Nodes → Nodes
  update_parents zero level idx nodes = nodes
  update_parents (suc n) level idx nodes =
      let is_right = truthy (bit_and idx 1) in
      let left = if is_right then node_at nodes level (idx - 1) else node_at nodes level idx in
      let right = if is_right then node_at nodes level idx else node_at nodes level (idx + 1) in
      update_parents n (suc level) (idx / 2)
        (set_node nodes (suc level) (idx / 2) (hash_node k left right))

  -- `_insert`
  unfoldable pub insert : ℕ → ℕ → ℕ → Nodes → Nodes
  insert depth leaf_index value nodes =
      update_parents depth 0 leaf_index (set_node nodes 0 leaf_index (value % bn254_prime))

  -- The loop of `__init__` over `enumerate(self._leaves)`.
  unfoldable pub insert_all : ℕ → ℕ → List ℕ → Nodes → Nodes
  insert_all depth i [] nodes = nodes
  insert_all depth i (leaf ∷ leaves) nodes =
      insert_all depth (suc i) leaves (insert depth i leaf nodes)

  -- `__init__`
  unfoldable pub new : ℕ → List ℕ → Result PoseidonMerkleTree
  new depth leaves = do
    raise_if (ltb depth 1) value_error
    raise_if (ltb (2 ^ depth) (length leaves)) value_error
    let reduced = map (λ leaf. leaf % bn254_prime) leaves
    ok (record {
      depth = depth;
      leaves = reduced;
      nodes = insert_all depth 0 reduced (λ _ _. none);
    })

  unfoldable pub root : PoseidonMerkleTree → ℕ
  root t = node_at t.nodes t.depth 0

  -- The siblings that `proof_for_index` appends, over the `n` levels from `level` on.
  unfoldable pub path_elements_from : Nodes → ℕ → ℕ → ℕ → List ℕ
  path_elements_from nodes zero level cur = []
  path_elements_from nodes (suc n) level cur =
      node_at nodes level (if truthy (bit_and cur 1) then cur - 1 else cur + 1)
      ∷ path_elements_from nodes n (suc level) (cur / 2)

  -- An index is a natural number, so the check `idx < 0` never fires.
  unfoldable pub proof_for_index : PoseidonMerkleTree → ℕ → Result PoseidonProof
  proof_for_index t idx = do
    raise_if (leb (2 ^ t.depth) idx) value_error
    ok (record {
      path_elements = path_elements_from t.nodes t.depth 0 idx;
      path_indices = path_indices_from t.depth idx;
    })

  -- The loop of `verify` over `zip(path_elements, path_indices)`.
  unfoldable pub fold_proof : ℕ → List ℕ → List ℕ → ℕ
  fold_proof cur [] sides = cur
  fold_proof cur (sib ∷ sibs) [] = cur
  fold_proof cur (sib ∷ sibs) (side ∷ sides) =
      fold_proof
        (if side == 0
          then hash_node k cur (sib % bn254_prime)
          else hash_node k (sib % bn254_prime) cur)
        sibs sides

  unfoldable pub verify : ℕ → PoseidonProof → ℕ → Bool
  verify leaf proof top =
      if length proof.path_elements == length proof.path_indices
      then fold_proof (leaf % bn254_prime) proof.path_elements proof.path_indices
        == top % bn254_prime
      else false
