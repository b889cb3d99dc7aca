-- ===== src/Contracts/CredDefRegistry/Tests.antt =====
-- A contract that holds one credDef, and a node that takes its registration.
use aca_py_did_kanon.Prelude.{◌≡◌, refl, false, true, some, [], ◌∷◌, replicate, Bytes, Result, ok}
use aca_py_did_kanon.Prelude.Hex.{codes}
use aca_py_did_kanon.Contracts.Convert.{raw, to_bytes32}
use aca_py_did_kanon.Contracts.MerkleState.{Receipt}
use aca_py_did_kanon.Contracts.Transaction.{Node, build_fee_fields, build_send, caught, send}
use aca_py_did_kanon.Contracts.CredDefRegistry.{
  CredDefArgs, CredDefTuple, register_credential_definition,
}

abbrev id : Bytes
id = replicate 32 7

abbrev stored : CredDefTuple
stored = record {
  schema_id = replicate 32 1;
  issuer_org = replicate 32 2;
  issuer_pub_key = 3 ∷ [];
  policy_mask = 3;
  created_at = 1700;
  deprecated = false;
  uri = codes "u";
}

abbrev view : Bytes → Result CredDefTuple
view cd = ok stored

abbrev receipt : Receipt
receipt = record { tx_hash = 1 ∷ []; block_number = 6; status = 1 }

abbrev node : Node CredDefArgs
node = record {
  base_fee = ok (some 7);
  max_priority_fee = ok 2;
  gas_price = ok 9;
  transaction_count = ok 4;
  chain_id = ok 5;
  estimate_gas = λ name args. ok 21000;
  send = λ tx. ok receipt;
}

registers :
    register_credential_definition true node (raw id) (raw id) (raw (3 ∷ [])) 3 (codes "u") 8 9
    ≡ ok receipt
unfolding register_credential_definition to_bytes32 send build_send build_fee_fields caught
registers = refl
