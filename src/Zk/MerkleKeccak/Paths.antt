-- ===== src/Zk/MerkleKeccak/Paths.antt =====
-- Every proof that the sorted-pair tree gives out is accepted against its root.
use Prim.Native.Nat.{bit_xor}
use aca_py_did_kanon.Prelude.{
  ℕ, zero, suc, ◌/◌, ◌≤◌, ◌<◌, ◌≡◌, refl, true, false, none, some, List, [], ◌∷◌, arith, ltb,
  length, get_or, All, All-get_or, Bool-cases, inl, inr, Bytes, bytes_eq_refl, bytes_eq→eq, ok, err,
  value_error, ge→ltb, ltb→lt, ltb_false→ge, ◌⊎◌, ◌≢◌, Option-cases, ap, subst, bytes_eq_iff,
}
use aca_py_did_kanon.Zk.MerkleKeccak.{
  OzStandardMerkleTree, all_bytes32, index_of, top_of, root, siblings, proof_for_index, proof_for,
  next_layer, layers_above, build_layers, new, fold_path, verify,
}
use aca_py_did_kanon.Zk.MerkleKeccak.Layers.{
  IsBytes32, get_or-next_layer, length-next_layer, next_layer-IsBytes32,
}

module _ (keccak : Bytes → Bytes) (digest : (b : Bytes) → length (keccak b) ≡ 32) where
  -- One step up: the path of a node is that of its parent behind its neighbour.
  fold_path-step :
      (layer : List Bytes) (above : List (List Bytes)) (i : ℕ) (top : Bytes)
      → i < length layer
      → All IsBytes32 layer
      → fold_path keccak
          (get_or (next_layer keccak layer) (i / 2) [])
          (siblings (next_layer keccak layer) above (i / 2))
          top
        ≡ true
      → fold_path keccak
          (get_or layer i [])
          (siblings layer (next_layer keccak layer ∷ above) i)
          top
        ≡ true
  unfolding fold_path siblings
  fold_path-step layer above i top h a ih = elim (Bool-cases (ltb (bit_xor i 1) (length layer))) [
    | inl paired ↦
        let full : IsBytes32 (get_or layer (bit_xor i 1) []) =
          All-get_or IsBytes32 layer (bit_xor i 1) [] a (ltb→lt _ _ paired) in
        rw paired (ground (arith, full, paired, ih, get_or-next_layer keccak layer i h))
    | inr alone ↦ rw alone (ground (arith, alone, ih, get_or-next_layer keccak layer i h))
  ]

  layers_above_more :
      (fuel : ℕ) (layer : List Bytes)
      → ltb 1 (length layer) ≡ true
      → layers_above keccak (suc fuel) layer
        ≡ next_layer keccak layer ∷ layers_above keccak fuel (next_layer keccak layer)
  unfolding layers_above
  layers_above_more fuel layer h = rw (h, layers_above)

  layers_above_one :
      (fuel : ℕ) (layer : List Bytes)
      → ltb 1 (length layer) ≡ false
      → layers_above keccak fuel layer ≡ []
  unfolding layers_above
  layers_above_one zero layer h = refl
  layers_above_one (suc fuel) layer h = rw (h, layers_above)

  fold_path_one :
      (layer : List Bytes) (i : ℕ)
      → i < length layer
      → length layer ≤ 1
      → fold_path keccak (get_or layer i []) (siblings layer [] i) (top_of layer []) ≡ true
  unfolding fold_path siblings top_of
  fold_path_one (x ∷ []) zero h l = bytes_eq_refl x
  fold_path_one (x ∷ []) (suc i) h l = absurd (omega arith)
  fold_path_one (x ∷ y ∷ xs) i h l = absurd (omega arith)
  fold_path_one [] i h l = elim h [ ]

  -- From any layer that the fuel can finish, a node's path folds to the top.
  fold_path-siblings :
      (fuel : ℕ) (layer : List Bytes) (i : ℕ)
      → length layer ≤ suc fuel
      → i < length layer
      → All IsBytes32 layer
      → fold_path keccak
          (get_or layer i [])
          (siblings layer (layers_above keccak fuel layer) i)
          (top_of layer (layers_above keccak fuel layer))
        ≡ true
  unfolding top_of
  fold_path-siblings zero layer i l h a =
      rw (layers_above_one zero layer (ge→ltb _ _ l)) (fold_path_one layer i h l)
  fold_path-siblings (suc fuel) layer i l h a = elim (Bool-cases (ltb 1 (length layer))) [
    | inl more ↦
        let next = next_layer keccak layer in
        let ih =
          fold_path-siblings fuel next (i / 2) (omega (arith, length-next_layer keccak layer))
            (omega (arith, length-next_layer keccak layer))
            (next_layer-IsBytes32 keccak digest layer a) in
        rw (layers_above_more fuel layer more)
          (fold_path-step layer (layers_above keccak fuel next) i _ h a ih)
    | inr one ↦
        rw (layers_above_one (suc fuel) layer one) (fold_path_one layer i h (ltb_false→ge _ _ one))
  ]

  top_of-IsBytes32 :
      (fuel : ℕ) (layer : List Bytes)
      → 0 < length layer
      → All IsBytes32 layer
      → IsBytes32 (top_of layer (layers_above keccak fuel layer))
  unfolding top_of layers_above
  top_of-IsBytes32 zero layer h a = All-get_or IsBytes32 layer 0 [] a h
  top_of-IsBytes32 (suc fuel) layer h a = elim (Bool-cases (ltb 1 (length layer))) [
    | inl more ↦
        rw (more, layers_above)
          (top_of-IsBytes32 fuel (next_layer keccak layer)
            (omega (arith, length-next_layer keccak layer))
            (next_layer-IsBytes32 keccak digest layer a))
    | inr one ↦ rw (one, layers_above) (All-get_or IsBytes32 layer 0 [] a h)
  ]

  full_leaves : (leaves : List Bytes) → all_bytes32 leaves ≡ true → All IsBytes32 leaves
  unfolding all_bytes32
  full_leaves [] h = tt
  full_leaves (leaf ∷ leaves) h = (ground arith, full_leaves leaves (ground arith))

  -- What a successful `new` has built.
  new-eq-ok :
      (leaves : List Bytes) (t : OzStandardMerkleTree)
      → new keccak leaves ≡ ok t
      → (t ≡ record { leaves = leaves; layers = build_layers keccak leaves })
        × (All IsBytes32 leaves)
  unfolding new
  new-eq-ok leaves t h = elim (Bool-cases (all_bytes32 leaves)) [
    | inl good ↦ (ground (arith, good), full_leaves leaves good)
    | inr bad ↦ absurd (ground (arith, bad))
  ]

  -- The proof of every leaf position of a tree that was built is accepted against the root.
  pub verify-proof_for_index :
      (leaves : List Bytes) (t : OzStandardMerkleTree) (i : ℕ)
      → new keccak leaves ≡ ok t
      → i < length leaves
      → verify keccak (get_or leaves i []) (proof_for_index t i) (root t) ≡ true
  unfolding verify build_layers
  verify-proof_for_index [] t i h lt = elim lt [ ]
  verify-proof_for_index (x ∷ xs) t i h lt =
      let (built, full) = new-eq-ok (x ∷ xs) t h in
      let n = length (x ∷ xs) in
      rw built (
        ground (
          arith,
          All-get_or IsBytes32 (x ∷ xs) i [] full lt,
          top_of-IsBytes32 n (x ∷ xs) (omega arith) full,
          fold_path-siblings n (x ∷ xs) i (omega arith) lt full,
        ))

  index_of-some :
      (leaf : Bytes) (xs : List Bytes) (i : ℕ)
      → index_of leaf xs ≡ some i
      → (i < length xs) × (get_or xs i [] ≡ leaf)
  unfolding index_of
  index_of-some leaf [] i h = cc
  index_of-some leaf (x ∷ xs) zero h = (omega arith, ground (arith, bytes_eq→eq x leaf))
  index_of-some leaf (x ∷ xs) (suc i) h =
      let earlier : index_of leaf xs ≡ some i = ground arith in
      let (lt, e) = index_of-some leaf xs i earlier in (omega arith, e)

  index_of-none :
      (leaf : Bytes) (xs : List Bytes)
      → index_of leaf xs ≡ none
      → (i : ℕ) → i < length xs
      → get_or xs i [] ≢ leaf
  unfolding index_of
  index_of-none leaf [] h i lt = elim lt [ ]
  index_of-none leaf (x ∷ xs) h zero lt = ground (arith, bytes_eq_iff x leaf)
  index_of-none leaf (x ∷ xs) h (suc i) lt =
      let absent : index_of leaf xs ≡ none = ground arith in
      index_of-none leaf xs absent i (omega arith)

  -- `proof_for` gives an accepted proof for a leaf of the tree, and raises ValueError for a value
  -- that is at no position of the tree.
  pub proof_for_exact :
      (leaves : List Bytes) (t : OzStandardMerkleTree) (leaf : Bytes)
      → new keccak leaves ≡ ok t
      → ((p : List Bytes) × (proof_for t leaf ≡ ok p) × (verify keccak leaf p (root t) ≡ true))
        ⊎ (proof_for t leaf ≡ err value_error)
          × ((i : ℕ) → i < length leaves → get_or leaves i [] ≢ leaf)
  unfolding proof_for
  proof_for_exact leaves t leaf h = elim (Option-cases (index_of leaf t.leaves)) [
    | inl absent ↦
        let same : t.leaves ≡ leaves =
          ap (λ (u : OzStandardMerkleTree). u.leaves) (new-eq-ok leaves t h).0 in
        inr (rw (absent, proof_for), index_of-none leaf leaves (rw (← same) absent))
    | inr (i, found) ↦
        let same : t.leaves ≡ leaves =
          ap (λ (u : OzStandardMerkleTree). u.leaves) (new-eq-ok leaves t h).0 in
        let (lt, e) = index_of-some leaf leaves i (rw (← same) found) in
        inl (
          proof_for_index t i,
          rw (found, proof_for),
          subst (λ (b : Bytes). verify keccak b (proof_for_index t i) (root t) ≡ true) e
              (verify-proof_for_index leaves t i h lt),
        )
  ]
