-- ===== src/Contracts/CredDefRegistry/Sent.antt =====
-- contracts/cred_def_registry.py: the transaction of a registration.
use aca_py_did_kanon.Prelude.{ℕ, ◌≡◌, subst, Bool, Bytes, ok, client_error, >>=-eq-ok}
use aca_py_did_kanon.Prelude.Hex.{codes}
use aca_py_did_kanon.Contracts.Convert.{raw, to_bytes, to_bytes32, to_bytes32-raw}
use aca_py_did_kanon.Contracts.MerkleState.{Receipt}
use aca_py_did_kanon.Contracts.Transaction.{Transaction, Node}
use aca_py_did_kanon.Contracts.Transaction.Sent.{send-sends}
use aca_py_did_kanon.Contracts.CredDefRegistry.{CredDefArgs, register_credential_definition}

-- The node took a transaction that registers a credential definition, with status 1.
pub record Registration (node : Node CredDefArgs) (args : CredDefArgs) (receipt : Receipt)
    : Type 0 where
  pub tx : Transaction CredDefArgs
  pub taken : node.send tx ≡ ok receipt
  pub succeeded : receipt.status ≡ 1
  pub calls : tx.fn_name ≡ codes "registerCredentialDefinition"
  pub with_args : tx.args ≡ args

pub register_credential_definition-Registration :
    (has_key : Bool) (node : Node CredDefArgs) (cd sid pk : Bytes) (policy_mask : ℕ) (uri : Bytes)
    (ax ay : ℕ) (receipt : Receipt)
    → register_credential_definition has_key node (raw cd) (raw sid) (raw pk) policy_mask uri ax ay
      ≡ ok receipt
    → Registration node
        (record {
          cred_def_id = cd;
          schema_id = sid;
          issuer_pub_key = pk;
          policy_mask = policy_mask;
          uri = uri;
          issuer_zk_pub_key_ax = ax;
          issuer_zk_pub_key_ay = ay;
        })
        receipt
unfolding register_credential_definition to_bytes
register_credential_definition-Registration has_key node cd sid pk policy_mask uri ax ay receipt h =
    let args : Bytes → Bytes → CredDefArgs = λ c s. record {
      cred_def_id = c;
      schema_id = s;
      issuer_pub_key = pk;
      policy_mask = policy_mask;
      uri = uri;
      issuer_zk_pub_key_ax = ax;
      issuer_zk_pub_key_ay = ay;
    } in
    let (cd', e1, h1) = >>=-eq-ok (to_bytes32 (raw cd)) _ h in
    let (sid', e2, h2) = >>=-eq-ok (to_bytes32 (raw sid)) _ h1 in
    let (key, status, tx, taken, name, given, counted, on_chain, fee) =
      send-sends client_error has_key node (codes "registerCredentialDefinition") (args cd' sid')
        receipt h2 in
    subst (λ c. Registration node (args c sid) receipt) (to_bytes32-raw cd cd' e1)
      (subst (λ s. Registration node (args cd' s) receipt) (to_bytes32-raw sid sid' e2)
        (record { tx = tx; taken = taken; succeeded = status; calls = name; with_args = given }))
