-- ===== src/Zk/MerklePoseidon/Proofs.antt =====
-- The sparse tree against the full tree, and its proofs against its root.
use Prim.Native.Nat.{bit_and}
use native.Mathlib.Nat.{mod-mod, pow-suc, mod-eq_of_lt}
use aca_py_did_kanon.Prelude.{
  ℕ, zero, suc, ◌+◌, ◌-◌, ◌*◌, ◌%◌, ◌/◌, ◌^◌, ◌≤◌, ◌<◌, ◌≡◌, refl, ◌∙◌, ap, subst, true, false,
  none, List, [], ◌∷◌, map, arith, leb, ◌==◌, if◌then◌else◌, length, length-map, get_or, ok, ok_inj,
  >>=-eq-ok, raise_if, value_error,
}
use aca_py_did_kanon.Prelude.Bits.{bit_and-one}
use aca_py_did_kanon.Zk.Poseidon.{Constants, bn254_prime}
use aca_py_did_kanon.Zk.Poseidon.Range.{IsFelt, FitsArity, poseidon_hash-IsFelt}
use aca_py_did_kanon.Zk.MerklePoseidon.{
  truthy, node_tag, hash_node, PoseidonProof, PoseidonMerkleTree, Nodes, zeros, node_at, insert_all,
  new, root, path_elements_from, path_indices_from, proof_for_index, fold_proof, verify,
}
use aca_py_did_kanon.Zk.MerklePoseidon.Consistency.{
  Agrees, insert_all-Agrees, insert_all_leaf, empty-Agrees,
}

-- The leaf at a position of the padded tree: the given one in the field, or 0.
abbrev pub padded_leaf : List ℕ → ℕ → ℕ
padded_leaf leaves i = get_or leaves i 0 % bn254_prime

module _ (k : Constants) where
  -- The specification: the full binary tree over the padded leaves, by levels.
  pub full_node : List ℕ → ℕ → ℕ → ℕ
  full_node leaves zero i = padded_leaf leaves i
  full_node leaves (suc l) i =
      hash_node k (full_node leaves l (2 * i)) (full_node leaves l (2 * i + 1))

  get_or-map_mod :
      (leaves : List ℕ) (i : ℕ)
      → get_or (map (λ leaf. leaf % bn254_prime) leaves) i 0 ≡ padded_leaf leaves i
  get_or-map_mod [] i = refl
  get_or-map_mod (x ∷ xs) zero = refl
  get_or-map_mod (x ∷ xs) (suc i) = get_or-map_mod xs i

  get_or-ge : (leaves : List ℕ) (i : ℕ) → length leaves ≤ i → padded_leaf leaves i ≡ 0
  get_or-ge [] i h = refl
  get_or-ge (x ∷ xs) zero h = absurd (omega arith)
  get_or-ge (x ∷ xs) (suc i) h = get_or-ge xs i (omega arith)

  -- What a successful `new` has built.
  record IsBuilt (depth : ℕ) (leaves : List ℕ) (t : PoseidonMerkleTree) : Type 0 where
    depth_eq : t.depth ≡ depth
    depth_pos : 0 < depth
    leaf : (i : ℕ) → node_at k t.nodes 0 i ≡ padded_leaf leaves i
    agrees : (l j : ℕ) → l < depth → Agrees k t.nodes l j

  abbrev built : ℕ → List ℕ → PoseidonMerkleTree
  built depth leaves =
      let reduced = map (λ leaf. leaf % bn254_prime) leaves in
      record { depth = depth; leaves = reduced; nodes = insert_all k depth 0 reduced (λ _ _. none) }

  new-eq-ok :
      (depth : ℕ) (leaves : List ℕ) {t : PoseidonMerkleTree}
      → new k depth leaves ≡ ok t
      → (t ≡ built depth leaves) × (0 < depth)
  unfolding new
  new-eq-ok depth leaves h = (ground arith, ground arith)

  built_leaf :
      (depth : ℕ) (leaves : List ℕ) (i : ℕ)
      → node_at k (built depth leaves).nodes 0 i ≡ padded_leaf leaves i
  built_leaf depth leaves i =
      let reduced = map (λ leaf. leaf % bn254_prime) leaves in
      let empty : Nodes = λ _ _. none in
      let start : 0 + i ≡ i = omega arith in
      let unset : node_at k empty 0 i ≡ 0 = unfold node_at zeros in refl in
      let given = insert_all_leaf k depth 0 reduced empty i in
      subst (λ (j : ℕ). node_at k (built depth leaves).nodes 0 j ≡ padded_leaf leaves i) start
        (given
          ∙ rw (start, unset)
              (ground (
                arith,
                length-map leaves (λ leaf. leaf % bn254_prime),
                get_or-map_mod leaves i,
                get_or-ge leaves i,
                mod-mod (get_or leaves i 0) bn254_prime,
              )))

  new-IsBuilt :
      (depth : ℕ) (leaves : List ℕ) {t : PoseidonMerkleTree}
      → new k depth leaves ≡ ok t
      → IsBuilt depth leaves t
  new-IsBuilt depth leaves {t} h =
      let (e, pos) = new-eq-ok depth leaves h in
      rw e (record {
        depth_eq = refl;
        depth_pos = pos;
        leaf = built_leaf depth leaves;
        agrees =
            insert_all-Agrees k depth 0 (map (λ leaf. leaf % bn254_prime) leaves) (λ _ _. none)
              (λ l j _. empty-Agrees k l j);
      })

  -- Every node of the sparse tree is the node of the full tree.
  node_at-eq-full_node :
      (depth : ℕ) (leaves : List ℕ) {t : PoseidonMerkleTree}
      → IsBuilt depth leaves t
      → (l i : ℕ) → l ≤ depth
      → node_at k t.nodes l i ≡ full_node leaves l i
  unfolding full_node
  node_at-eq-full_node depth leaves b zero i le = b.leaf i
  node_at-eq-full_node depth leaves b (suc l) i le =
      b.agrees l i le
      ∙ rw (
        node_at-eq-full_node depth leaves b l (2 * i) (omega arith),
        node_at-eq-full_node depth leaves b l (2 * i + 1) (omega arith),
      )

  -- The root of the sparse tree is the root of the full binary tree over the leaves, padded with
  -- zeros to the depth.
  pub root-eq-full_node :
      (depth : ℕ) (leaves : List ℕ) (t : PoseidonMerkleTree)
      → new k depth leaves ≡ ok t
      → root k t ≡ full_node leaves depth 0
  unfolding root
  root-eq-full_node depth leaves t h =
      let b = new-IsBuilt depth leaves h in
      rw b.depth_eq (node_at-eq-full_node depth leaves b depth 0 (omega arith))

  hash_node-mod_left : (a b : ℕ) → hash_node k (a % bn254_prime) b ≡ hash_node k a b
  unfolding hash_node
  hash_node-mod_left a b = rw (mod-mod a bn254_prime)

  hash_node-mod_right : (a b : ℕ) → hash_node k a (b % bn254_prime) ≡ hash_node k a b
  unfolding hash_node
  hash_node-mod_right a b = rw (mod-mod b bn254_prime)

  -- One round of `verify` goes from a node to its parent.
  fold_proof_round :
      (f : ℕ → ℕ) (idx : ℕ)
      → (if bit_and idx 1 == 0
          then hash_node k
              (f idx)
              (f (if truthy (bit_and idx 1) then idx - 1 else idx + 1) % bn254_prime)
          else hash_node k
              (f (if truthy (bit_and idx 1) then idx - 1 else idx + 1) % bn254_prime)
              (f idx))
        ≡ hash_node k (f (2 * (idx / 2))) (f (2 * (idx / 2) + 1))
  fold_proof_round f idx = ground (
    arith,
    bit_and-one idx,
    hash_node-mod_right (f idx) (f (idx + 1)),
    hash_node-mod_left (f (idx - 1)) (f idx),
  )

  -- The walk up from a node ends at the root.
  fold_proof-path :
      (depth : ℕ) (leaves : List ℕ) {t : PoseidonMerkleTree}
      → IsBuilt depth leaves t
      → (n level idx : ℕ) → level + n ≡ depth
      → idx < 2 ^ n
      → fold_proof k
          (node_at k t.nodes level idx)
          (path_elements_from k t.nodes n level idx)
          (path_indices_from n idx)
        ≡ node_at k t.nodes depth 0
  unfolding fold_proof path_elements_from path_indices_from
  fold_proof-path depth leaves {t} b zero level idx e lt =
      let top : level ≡ depth = omega arith in let first : idx ≡ 0 = omega arith in rw (top, first)
  fold_proof-path depth leaves {t} b (suc n) level idx e lt =
      let at = node_at k t.nodes level in
      let up : node_at k t.nodes (suc level) (idx / 2)
          ≡ hash_node k (at (2 * (idx / 2))) (at (2 * (idx / 2) + 1)) =
        b.agrees level (idx / 2) (omega arith) in
      let ih =
        fold_proof-path depth leaves b n (suc level) (idx / 2) (omega arith)
          (omega (arith, pow-suc 2 n)) in
      rw (fold_proof_round at idx, ← up) ih

  -- A parent is a field element.
  pub hash_node-IsFelt : (a b : ℕ) → FitsArity k 3 → IsFelt (hash_node k a b)
  unfolding hash_node
  hash_node-IsFelt a b fits =
      let (x, e, f) =
        poseidon_hash-IsFelt k (node_tag ∷ a % bn254_prime ∷ b % bn254_prime ∷ []) (omega arith)
          (omega arith) fits in
      rw e f

  root-IsFelt :
      (depth : ℕ) (leaves : List ℕ) {t : PoseidonMerkleTree}
      → IsBuilt depth leaves t
      → FitsArity k 3
      → IsFelt (node_at k t.nodes depth 0)
  root-IsFelt zero leaves b fits = absurd (omega (arith, b.depth_pos))
  root-IsFelt (suc d) leaves b fits = rw (b.agrees d 0 (omega arith)) (hash_node-IsFelt _ _ fits)

  length-path_elements_from :
      (nodes : Nodes) (n level idx : ℕ)
      → length (path_elements_from k nodes n level idx) ≡ length (path_indices_from n idx)
  unfolding path_elements_from path_indices_from
  length-path_elements_from nodes zero level idx = refl
  length-path_elements_from nodes (suc n) level idx =
      ap suc (length-path_elements_from nodes n (suc level) (idx / 2))

  length-path_indices_from : (n idx : ℕ) → length (path_indices_from n idx) ≡ n
  unfolding path_indices_from
  length-path_indices_from zero idx = refl
  length-path_indices_from (suc n) idx = ap suc (length-path_indices_from n (idx / 2))

  -- A proof has one sibling and one side for each level of the tree.
  pub proof_for_index-length :
      (depth : ℕ) (leaves : List ℕ) (t : PoseidonMerkleTree) (idx : ℕ) (p : PoseidonProof)
      → new k depth leaves ≡ ok t
      → proof_for_index k t idx ≡ ok p
      → (length p.path_elements ≡ depth) × (length p.path_indices ≡ depth)
  unfolding proof_for_index
  proof_for_index-length depth leaves t idx p made h =
      let (u, eu, h') = >>=-eq-ok (raise_if (leb (2 ^ t.depth) idx) value_error) _ h in
      let deep = (new-IsBuilt depth leaves made).depth_eq in
      let sides = length-path_indices_from t.depth idx ∙ deep in
      subst
        (λ (q : PoseidonProof). (length q.path_elements ≡ depth) × (length q.path_indices ≡ depth))
        (ok_inj h') (length-path_elements_from t.nodes t.depth 0 idx ∙ sides, sides)

  -- For every position of a tree that was built, filled or padding, the proof is produced and it is
  -- accepted for the leaf there against the root.
  pub verify-padded_leaf :
      (depth : ℕ) (leaves : List ℕ) (t : PoseidonMerkleTree) (idx : ℕ)
      → FitsArity k 3
      → new k depth leaves ≡ ok t
      → idx < 2 ^ depth
      → (p : PoseidonProof) × (proof_for_index k t idx ≡ ok p)
        × (verify k (padded_leaf leaves idx) p (root k t) ≡ true)
  unfolding verify proof_for_index root
  verify-padded_leaf depth leaves t idx fits h lt =
      let b = new-IsBuilt depth leaves h in
      let in_range : leb (2 ^ t.depth) idx ≡ false = rw b.depth_eq (ground arith) in
      let same_length = length-path_elements_from t.nodes t.depth 0 idx in
      let walk = fold_proof-path depth leaves b depth 0 idx (omega arith) lt in
      let small : IsFelt (node_at k t.nodes depth 0) = root-IsFelt depth leaves b fits in
      (
        record {
          path_elements = path_elements_from k t.nodes t.depth 0 idx;
          path_indices = path_indices_from t.depth idx;
        },
        rw (in_range, proof_for_index),
        ground (
          arith,
          same_length,
          walk,
          b.leaf idx,
          b.depth_eq,
          mod-mod (get_or leaves idx 0) bn254_prime,
          mod-eq_of_lt small,
        ),
      )

-- A tree that is built has no more leaves than places.
pub new-fits :
    (k : Constants) (depth : ℕ) (leaves : List ℕ) (t : PoseidonMerkleTree)
    → new k depth leaves ≡ ok t
    → length leaves ≤ 2 ^ depth
unfolding new
new-fits k depth leaves t h = ground arith
