-- ===== src/Zk/MerklePoseidon/Consistency.antt =====
-- The invariant of the sparse tree: every node is the hash of its two children.
use Prim.Native.Nat.{bit_and}
use aca_py_did_kanon.Prelude.{
  ℕ, zero, suc, ◌+◌, ◌-◌, ◌*◌, ◌%◌, ◌/◌, ◌≤◌, ◌<◌, ◌≡◌, ◌≢◌, refl, none, List, [], ◌∷◌, arith, ◌∙◌,
  ltb, get_or, if◌then◌else◌, length, inl, ◌⊎◌, ◌==◌,
}
use aca_py_did_kanon.Prelude.Bits.{bit_and-one}
use aca_py_did_kanon.Zk.Poseidon.{Constants, bn254_prime}
use aca_py_did_kanon.Zk.MerklePoseidon.{
  truthy, hash_node, Nodes, set_node, zeros, node_at, update_parents, insert, insert_all,
}

left_child :
    (f : ℕ → ℕ) (idx : ℕ)
    → (if truthy (bit_and idx 1) then f (idx - 1) else f idx) ≡ f (2 * (idx / 2))
left_child f idx = ground (arith, bit_and-one idx)

right_child :
    (f : ℕ → ℕ) (idx : ℕ)
    → (if truthy (bit_and idx 1) then f idx else f (idx + 1)) ≡ f (2 * (idx / 2) + 1)
right_child f idx = ground (arith, bit_and-one idx)

module _ (k : Constants) where
  pub node_at-set_node :
      (nodes : Nodes) (level idx v l i : ℕ)
      → node_at k (set_node nodes level idx v) l i ≡ (
          if (l == level)
          then (if i == idx then v else node_at k nodes l i)
          else node_at k nodes l i)
  unfolding node_at
  node_at-set_node nodes level idx v l i = ground arith

  -- The node at (l + 1, j) is the hash of its children.
  abbrev pub Agrees : Nodes → ℕ → ℕ → Type 0
  Agrees nodes l j =
      node_at k nodes (suc l) j
      ≡ hash_node k (node_at k nodes l (2 * j)) (node_at k nodes l (2 * j + 1))

  -- One step of the insertion, in terms of the parent's children.
  update_parents_step :
      (n level idx : ℕ) (nodes : Nodes)
      → update_parents k (suc n) level idx nodes
        ≡ update_parents k n (suc level) (idx / 2) (
            set_node nodes (suc level) (idx / 2) (
              hash_node k
                (node_at k nodes level (2 * (idx / 2)))
                (node_at k nodes level (2 * (idx / 2) + 1))))
  unfolding update_parents
  update_parents_step n level idx nodes = rw (
    left_child (node_at k nodes level) idx,
    right_child (node_at k nodes level) idx,
    update_parents,
  )

  -- A node that is set to the hash of its children agrees with them, and only its own parent may
  -- have stopped agreeing.
  set_node-Agrees :
      (depth level p : ℕ) (nodes : Nodes)
      → ((l j : ℕ) → l < depth → (l ≢ level) ⊎ (j ≢ p) → Agrees nodes l j)
      → let nodes' =
          set_node nodes
            (suc level)
            p
            (hash_node k (node_at k nodes level (2 * p)) (node_at k nodes level (2 * p + 1))) in
        (l j : ℕ) → l < depth → (l ≢ suc level) ⊎ (j ≢ p / 2) → Agrees nodes' l j
  set_node-Agrees depth level p nodes h l j lt other =
      let v = hash_node k (node_at k nodes level (2 * p)) (node_at k nodes level (2 * p + 1)) in
      ground (
        arith,
        node_at-set_node nodes (suc level) p v (suc l) j,
        node_at-set_node nodes (suc level) p v l (2 * j),
        node_at-set_node nodes (suc level) p v l (2 * j + 1),
        h l j lt,
      )

  update_parents-Agrees :
      (depth n level idx : ℕ) (nodes : Nodes)
      → level + n ≡ depth
      → ((l j : ℕ) → l < depth → (l ≢ level) ⊎ (j ≢ idx / 2) → Agrees nodes l j)
      → (l j : ℕ) → l < depth
      → Agrees (update_parents k n level idx nodes) l j
  unfolding update_parents
  update_parents-Agrees depth zero level idx nodes e h l j lt = h l j lt (inl (omega arith))
  update_parents-Agrees depth (suc n) level idx nodes e h l j lt =
      let v =
        hash_node k (node_at k nodes level (2 * (idx / 2)))
          (node_at k nodes level (2 * (idx / 2) + 1)) in
      rw (update_parents_step n level idx nodes) (
        update_parents-Agrees depth n (suc level) (idx / 2) (set_node nodes (suc level) (idx / 2) v)
          (omega arith) (set_node-Agrees depth level (idx / 2) nodes h) l j lt)

  -- The levels up to `level` are left alone.
  update_parents_below :
      (n level idx : ℕ) (nodes : Nodes) (l i : ℕ)
      → l ≤ level
      → node_at k (update_parents k n level idx nodes) l i ≡ node_at k nodes l i
  unfolding update_parents
  update_parents_below zero level idx nodes l i le = refl
  update_parents_below (suc n) level idx nodes l i le =
      let v =
        hash_node k (node_at k nodes level (2 * (idx / 2)))
          (node_at k nodes level (2 * (idx / 2) + 1)) in
      rw (update_parents_step n level idx nodes) (
        update_parents_below n (suc level) (idx / 2) (set_node nodes (suc level) (idx / 2) v) l i
          (omega arith)
        ∙ ground (arith, node_at-set_node nodes (suc level) (idx / 2) v l i))

  insert-Agrees :
      (depth i x : ℕ) (nodes : Nodes)
      → ((l j : ℕ) → l < depth → Agrees nodes l j)
      → (l j : ℕ) → l < depth
      → Agrees (insert k depth i x nodes) l j
  unfolding insert
  insert-Agrees depth i x nodes h =
      let v = x % bn254_prime in
      update_parents-Agrees depth depth 0 i (set_node nodes 0 i v) (omega arith) λ l j lt other.
        ground (
          arith,
          node_at-set_node nodes 0 i v (suc l) j,
          node_at-set_node nodes 0 i v l (2 * j),
          node_at-set_node nodes 0 i v l (2 * j + 1),
          h l j lt,
        )

  insert_leaf :
      (depth i x : ℕ) (nodes : Nodes) (j : ℕ)
      → node_at k (insert k depth i x nodes) 0 j
        ≡ (if j == i then x % bn254_prime else node_at k nodes 0 j)
  unfolding insert
  insert_leaf depth i x nodes j =
      update_parents_below depth 0 i (set_node nodes 0 i (x % bn254_prime)) 0 j (omega arith)
      ∙ node_at-set_node nodes 0 i (x % bn254_prime) 0 j

  pub insert_all-Agrees :
      (depth i : ℕ) (xs : List ℕ) (nodes : Nodes)
      → ((l j : ℕ) → l < depth → Agrees nodes l j)
      → (l j : ℕ) → l < depth
      → Agrees (insert_all k depth i xs nodes) l j
  unfolding insert_all
  insert_all-Agrees depth i [] nodes h = h
  insert_all-Agrees depth i (x ∷ xs) nodes h =
      insert_all-Agrees depth (suc i) xs (insert k depth i x nodes)
        (insert-Agrees depth i x nodes h)

  insert_all_below :
      (depth i : ℕ) (xs : List ℕ) (nodes : Nodes) (j : ℕ)
      → j < i
      → node_at k (insert_all k depth i xs nodes) 0 j ≡ node_at k nodes 0 j
  unfolding insert_all
  insert_all_below depth i [] nodes j h = refl
  insert_all_below depth i (x ∷ xs) nodes j h =
      insert_all_below depth (suc i) xs (insert k depth i x nodes) j (omega arith)
      ∙ ground (arith, insert_leaf depth i x nodes j)

  -- The leaf at position `i + d` is the one at `d` of the list, or what was there before.
  pub insert_all_leaf :
      (depth i : ℕ) (xs : List ℕ) (nodes : Nodes) (d : ℕ)
      → node_at k (insert_all k depth i xs nodes) 0 (i + d)
        ≡ (if ltb d (length xs) then get_or xs d 0 % bn254_prime else node_at k nodes 0 (i + d))
  unfolding insert_all
  insert_all_leaf depth i [] nodes d = ground arith
  insert_all_leaf depth i (x ∷ xs) nodes zero =
      insert_all_below depth (suc i) xs (insert k depth i x nodes) (i + 0) (omega arith)
      ∙ ground (arith, insert_leaf depth i x nodes (i + 0))
  insert_all_leaf depth i (x ∷ xs) nodes (suc d) =
      let shift : i + suc d ≡ suc i + d = omega arith in
      rw shift (
        insert_all_leaf depth (suc i) xs (insert k depth i x nodes) d
        ∙ ground (arith, insert_leaf depth i x nodes (suc i + d)))

  pub empty-Agrees : (l j : ℕ) → Agrees (λ _ _. none) l j
  unfolding node_at zeros
  empty-Agrees l j = refl
