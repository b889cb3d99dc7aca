-- ===== src/Contracts/MerkleState/Reads.antt =====
-- The view calls of the client. A contract's view is the argument `view`.
use aca_py_did_kanon.Prelude.{
  Bool, false, Option, none, some, List, Bytes, Result, ok, err, contract_logic, ◌>>=◌,
}
use aca_py_did_kanon.Contracts.Convert.{BytesLike, to_bytes, to_bytes32, to_bytes32_all}
use aca_py_did_kanon.Contracts.MerkleState.{transport_error}

-- A boolean view: a revert is False.
unfoldable pub viewed : Result Bool → Result Bool
viewed (ok b) = ok b
viewed (err contract_logic) = ok false
viewed (err e) = err (transport_error e)

unfoldable pub verify_zk_membership :
    (Bytes → Bytes → List Bytes → Result Bool)
    → BytesLike
    → BytesLike
    → List BytesLike
    → Result Bool
unfolding viewed
verify_zk_membership view cred_def_id proof_bytes public_signals = do
  cd ← to_bytes32 cred_def_id
  pb ← to_bytes proof_bytes
  signals ← to_bytes32_all public_signals
  viewed (view cd pb signals)

-- `_is_recent`, and in the same way `is_nullifier_used`.
unfoldable pub is_recent : (Bytes → Bytes → Result Bool) → BytesLike → BytesLike → Result Bool
unfolding viewed
is_recent view cred_def_id root = do
  cd ← to_bytes32 cred_def_id
  r ← to_bytes32 root
  viewed (view cd r)

unfoldable pub is_nullifier_used :
    (Bytes → Bytes → Result Bool) → BytesLike → BytesLike → Result Bool
unfolding viewed
is_nullifier_used view cred_def_id nullifier = do
  cd ← to_bytes32 cred_def_id
  n ← to_bytes32 nullifier
  viewed (view cd n)

pub record MerkleRoots : Type 0 where
  pub keccak_root : Bytes
  pub poseidon_root : Bytes

unfoldable pub roots_read : Result (Bytes × Bytes) → Result (Option MerkleRoots)
unfolding transport_error
roots_read (ok (k, p)) = ok (some (record { keccak_root = k; poseidon_root = p }))
roots_read (err contract_logic) = ok none
roots_read (err e) = err (transport_error e)

-- `get_state` gives the roots, the first two components of the tuple.
unfoldable pub current_roots :
    (Bytes → Result (Bytes × Bytes)) → BytesLike → Result (Option MerkleRoots)
unfolding roots_read
current_roots get_state cred_def_id = do cd ← to_bytes32 cred_def_id; roots_read (get_state cd)

-- Any exception of the call is False.
unfoldable pub is_initialized : (Bytes → Result Bool) → BytesLike → Result Bool
is_initialized view cred_def_id = do
  cd ← to_bytes32 cred_def_id
  elim (view cd) [ ok b ↦ ok b | err e ↦ ok false ]
