-- ===== src/Anoncreds/Registry/Tests.antt =====
-- A registration with the default mask.
use aca_py_did_kanon.Prelude.{none, some, [], ◌∷◌, ◌++◌, replicate, Bytes, ok}
use aca_py_did_kanon.Prelude.Dict.{Dict}
use aca_py_did_kanon.Prelude.Hex.{codes}
use aca_py_did_kanon.Prelude.Value.{Fields, string, field, end}
use aca_py_did_kanon.Storage.{Storage, Json, parsed}
use aca_py_did_kanon.Contracts.MerkleState.{Receipt}
use aca_py_did_kanon.Contracts.Transaction.{Node, send}
use aca_py_did_kanon.Contracts.CredDefRegistry.{CredDefArgs}
use aca_py_did_kanon.Contracts.CredDefRegistry.{register_credential_definition as send_cred_def}
use aca_py_did_kanon.Zk.IssuerKey.{IssuerKey, KeyRecord, KeyWorld}
use aca_py_did_kanon.Anoncreds.Registry.CredDefs.{NewCredDef, register_credential_definition}

abbrev issuer : Bytes
issuer = codes "did:kanon:org:0x" ++ replicate 64 b'a'

abbrev body : Fields
body = field (codes "tag") (string (codes "t")) end

abbrev cred_def : NewCredDef
cred_def = record { issuer_id = issuer; schema_id = codes "s"; tag = codes "t"; body = body }

abbrev receipt : Receipt
receipt = record { tx_hash = 1 ∷ []; block_number = 6; status = 1 }

abbrev node : Node CredDefArgs
node = record {
  base_fee = ok (some 7);
  max_priority_fee = ok 2;
  gas_price = ok 9;
  transaction_count = ok 4;
  chain_id = ok 5;
  estimate_gas = λ name args. ok 21000;
  send = λ tx. ok receipt;
}

abbrev no_keys : Storage (Json KeyRecord) (Dict (Json Fields))
no_keys = record {
  get_record = λ s t i. ok none;
  update_record = λ s t i v. ok s;
  add_record = λ s t i v. ok s;
}

abbrev generated : IssuerKey
generated = record { private_key_hex = []; a_x = 0; a_y = 0 }

abbrev before : KeyWorld (Dict (Json Fields))
before = record { provision_locks = []; public_cache = []; store = [] }

abbrev id : Bytes
id = issuer ++ codes "/anoncreds/v0/CLAIM_DEF/name/t"

abbrev after_ : KeyWorld (Dict (Json Fields))
after_ = record { provision_locks = []; public_cache = []; store = (id, parsed body) ∷ [] }
