-- ===== src/Zk/MerklePoseidon/Binding.antt =====
-- A root binds the leaf at each position, unless the node hash has a collision.
use aca_py_did_kanon.Prelude.{ℕ, ◌≡◌, ◌≢◌, ◌⊎◌}
use aca_py_did_kanon.Zk.Poseidon.{Constants}
use aca_py_did_kanon.Zk.Poseidon.Range.{IsFelt}
use aca_py_did_kanon.Zk.MerklePoseidon.{hash_node}

-- Two different pairs of field elements with one parent.
pub record Collision (k : Constants) : Type 0 where
  pub left : ℕ
  pub right : ℕ
  pub left' : ℕ
  pub right' : ℕ
  pub felts : IsFelt left × IsFelt right × IsFelt left' × IsFelt right'
  pub differ : (left ≢ left') ⊎ (right ≢ right')
  pub same_parent : hash_node k left right ≡ hash_node k left' right'
