-- ===== src/Contracts/OrgRegistry.antt =====
-- contracts/org_registry.py, `KanonOrgRegistry`: organisations, members and the views on them.
-- `Web3.to_checksum_address` is the argument `checksum`.
use aca_py_did_kanon.Prelude.{
  Bool, false, List, [], ◌∷◌, ◌++◌, Bytes, Result, ok, err, client_error, ◌>>=◌,
}
use aca_py_did_kanon.Prelude.Hex.{codes, to_hex}
use aca_py_did_kanon.Contracts.Convert.{BytesLike, to_bytes32}
use aca_py_did_kanon.Contracts.MerkleState.{Receipt}
use aca_py_did_kanon.Contracts.Transaction.{Node, send}
use aca_py_did_kanon.Contracts.Views.{or_on_revert}

module _ (checksum : Bytes → Result Bytes) where
  -- A call of `registerOrg` has the DID and the admin's address.
  unfoldable pub register_org : Bool → Node (Bytes × Bytes) → Bytes → Bytes → Result Receipt
  register_org has_key node did admin = do
    address ← checksum admin
    send client_error has_key node (codes "registerOrg") (did, address)

  -- The ids of the `OrgRegistered` events in a receipt are read from the node.
  unfoldable pub register_org_and_get_id :
      Bool → Node (Bytes × Bytes) → (Bytes → Result (List Bytes)) → Bytes → Bytes → Result Bytes
  unfolding register_org
  register_org_and_get_id has_key node org_registered did admin = do
    tx ← register_org has_key node did admin
    org_ids ← org_registered tx.tx_hash
    elim org_ids [ [] ↦ err client_error | org_id ∷ rest ↦ ok (codes "0x" ++ to_hex org_id) ]

  unfoldable pub add_member : Bool → Node (Bytes × Bytes) → BytesLike → Bytes → Result Receipt
  add_member has_key node org_id member = do
    oid ← to_bytes32 org_id
    address ← checksum member
    send client_error has_key node (codes "addMember") (oid, address)

  unfoldable pub is_member : (Bytes → Bytes → Result Bool) → BytesLike → Bytes → Result Bool
  unfolding or_on_revert
  is_member view org_id who = do
    oid ← to_bytes32 org_id
    address ← checksum who
    or_on_revert false (view oid address)

  unfoldable pub is_admin : (Bytes → Bytes → Result Bool) → BytesLike → Bytes → Result Bool
  unfolding or_on_revert
  is_admin view org_id who = do
    oid ← to_bytes32 org_id
    address ← checksum who
    or_on_revert false (view oid address)

unfoldable pub approve_org : Bool → Node Bytes → BytesLike → Result Receipt
approve_org has_key node org_id = do
  oid ← to_bytes32 org_id
  send client_error has_key node (codes "approveOrg") oid

unfoldable pub is_approved_and_active : (Bytes → Result Bool) → BytesLike → Result Bool
unfolding or_on_revert
is_approved_and_active view org_id = do oid ← to_bytes32 org_id; or_on_revert false (view oid)
