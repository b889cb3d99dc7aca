-- ===== src/Contracts/DidRegistry.antt =====
-- contracts/did_registry.py, `KanonDIDRegistry`: writes and views of DID documents. A document that is
-- written is the caller's tuple, of any type `Doc`.
use aca_py_did_kanon.Prelude.{
  ℕ, Bool, false, Option, none, some, List, ◌++◌, Bytes, Result, ok, client_error, ◌>>=◌,
}
use aca_py_did_kanon.Prelude.Hex.{codes, to_hex}
use aca_py_did_kanon.Contracts.Convert.{BytesLike, to_bytes32}
use aca_py_did_kanon.Contracts.MerkleState.{Receipt}
use aca_py_did_kanon.Contracts.Transaction.{Node, send}
use aca_py_did_kanon.Contracts.Views.{or_on_revert}

abbrev pub zero_address : Bytes
zero_address = codes "0x0000000000000000000000000000000000000000"

-- The calls of the contract with their arguments.
pub data DidCall (Doc : Type 0) : Type 0 where
  register : Bytes → Bytes → Doc → DidCall Doc
  update : Bytes → Doc → DidCall Doc
  deactivate : Bytes → DidCall Doc

module _ {Doc : Type 0} (has_key : Bool) (node : Node (DidCall Doc)) where
  unfoldable pub register_did : Bytes → BytesLike → Doc → Result Receipt
  register_did did salt doc = do
    s ← to_bytes32 salt
    send client_error has_key node (codes "registerDID") (register did s doc)

  unfoldable pub update_did : Bytes → Doc → Result Receipt
  update_did did doc = send client_error has_key node (codes "updateDID") (update did doc)

  unfoldable pub deactivate_did : Bytes → Result Receipt
  deactivate_did did = send client_error has_key node (codes "deactivateDID") (deactivate did)

pub record VerificationMethod : Type 0 where
  pub id : Bytes
  pub vm_type : ℕ
  pub public_key : Bytes

pub record Service : Type 0 where
  pub id : Bytes
  pub service_type : Bytes
  pub endpoint : Bytes

-- The struct `DIDDocument` of the contract, and the dict that `_decode_doc` makes of it.
pub record DidDocument : Type 0 where
  pub controller : Bytes
  pub org_id : Bytes
  pub scope : ℕ
  pub verification_methods : List VerificationMethod
  pub authentication : List Bytes
  pub assertion_method : List Bytes
  pub capability_invocation : List Bytes
  pub capability_delegation : List Bytes
  pub key_agreement : List Bytes
  pub services : List Service
  pub doc_hash : Bytes
  pub created_at : ℕ
  pub updated_at : ℕ
  pub deactivated : Bool

unfoldable pub decode_doc : DidDocument → DidDocument
decode_doc raw = record raw { org_id = codes "0x" ++ to_hex raw.org_id }

-- None if the view reverts.
unfoldable pub resolve_did : (Bytes → Result DidDocument) → Bytes → Result (Option DidDocument)
unfolding or_on_revert decode_doc
resolve_did view did = or_on_revert none (do raw ← view did; ok (some (decode_doc raw)))

unfoldable pub exists : (Bytes → Result Bool) → Bytes → Result Bool
unfolding or_on_revert
exists view did = or_on_revert false (view did)

unfoldable pub is_deactivated : (Bytes → Result Bool) → Bytes → Result Bool
unfolding or_on_revert
is_deactivated view did = or_on_revert false (view did)

unfoldable pub controller_of : (Bytes → Result Bytes) → Bytes → Result Bytes
unfolding or_on_revert
controller_of view did = or_on_revert zero_address (view did)
