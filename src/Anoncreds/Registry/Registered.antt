-- ===== src/Anoncreds/Registry/Registered.antt =====
-- anoncreds/registry.py: what a registered credential definition has on chain.
use aca_py_did_kanon.Prelude.{ℕ, ◌++◌, Bytes}
use aca_py_did_kanon.Prelude.Hex.{codes}
use aca_py_did_kanon.Prelude.Value.{Value, Fields}
use aca_py_did_kanon.Web3.{Web3}
use aca_py_did_kanon.Storage.{Storage, Json}
use aca_py_did_kanon.Contracts.CredDefRegistry.{CredDefArgs}
use aca_py_did_kanon.Contracts.CredDefRegistry.{register_credential_definition as send_cred_def}
use aca_py_did_kanon.Zk.Eddsa.Base64.{b64encode}
use aca_py_did_kanon.Zk.IssuerKey.{IssuerKey, KeyRecord}
use aca_py_did_kanon.Anoncreds.Registry.CredDefs.{NewCredDef, register_credential_definition}

module _ {S : Type 0} (bodies : Storage (Json Fields) S) (keys : Storage (Json KeyRecord) S)
    (w : Web3) where
  abbrev args_of : (Fields → Bytes) → NewCredDef → Bytes → ℕ → ℕ × ℕ → CredDefArgs
  args_of canonical cred_def id mask key = record {
    cred_def_id = w.keccak_text id;
    schema_id = w.keccak_text cred_def.schema_id;
    issuer_pub_key = w.keccak (canonical cred_def.body);
    policy_mask = mask;
    uri = codes "data:application/json;base64," ++ b64encode (canonical cred_def.body);
    issuer_zk_pub_key_ax = key.0;
    issuer_zk_pub_key_ay = key.1;
  }
