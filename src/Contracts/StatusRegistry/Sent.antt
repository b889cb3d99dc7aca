-- ===== src/Contracts/StatusRegistry/Sent.antt =====
-- contracts/status_registry.py: the transaction of a revocation.
use mathlib.Core.Path.{ap₂}
use aca_py_did_kanon.Prelude.{◌≡◌, ◌∙◌, Bool, Bytes, ok, status_error, >>=-eq-ok}
use aca_py_did_kanon.Prelude.Hex.{codes}
use aca_py_did_kanon.Contracts.Convert.{raw, to_bytes32, to_bytes32-raw}
use aca_py_did_kanon.Contracts.MerkleState.{Receipt}
use aca_py_did_kanon.Contracts.Transaction.{Transaction, Node}
use aca_py_did_kanon.Contracts.Transaction.Sent.{send-sends}
use aca_py_did_kanon.Contracts.StatusRegistry.{revoke_credential, with_words}

-- The node took a transaction that revokes the credential, with status 1.
pub record Revocation (node : Node (Bytes × Bytes)) (cd ch : Bytes) : Type 0 where
  pub tx : Transaction (Bytes × Bytes)
  pub receipt : Receipt
  pub taken : node.send tx ≡ ok receipt
  pub succeeded : receipt.status ≡ 1
  pub calls : tx.fn_name ≡ codes "revokeCredential"
  pub args : tx.args ≡ (cd, ch)

pub revoke_credential-Revocation :
    (has_key : Bool) (node : Node (Bytes × Bytes)) (cd ch : Bytes) (receipt : Receipt)
    → revoke_credential has_key node (raw cd) (raw ch) ≡ ok receipt
    → Revocation node cd ch
unfolding revoke_credential with_words
revoke_credential-Revocation has_key node cd ch receipt h =
    let (cd', e1, h1) = >>=-eq-ok (to_bytes32 (raw cd)) _ h in
    let (ch', e2, h2) = >>=-eq-ok (to_bytes32 (raw ch)) _ h1 in
    let (key, status, tx, taken, name, args, counted, on_chain, fee) =
      send-sends status_error has_key node (codes "revokeCredential") (cd', ch') receipt h2 in
    record {
      tx = tx;
      receipt = receipt;
      taken = taken;
      succeeded = status;
      calls = name;
      args = args ∙ ap₂ (λ x y. (x, y)) (to_bytes32-raw cd cd' e1) (to_bytes32-raw ch ch' e2);
    }
