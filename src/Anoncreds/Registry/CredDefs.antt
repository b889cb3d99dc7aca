-- ===== src/Anoncreds/Registry/CredDefs.antt =====
-- anoncreds/registry.py: register_credential_definition and get_credential_definition. Whether
-- `for_network` gives the clients or raises is an argument (`connected`).
use aca_py_did_kanon.Prelude.{
  ℕ, Bool, true, false, Option, none, some, [], Bytes, registration_error, resolution_error,
  object_not_found, storage_not_found, Result, ok, err,
}
use aca_py_did_kanon.Prelude.Exec.{Exec, pure, lift, ◌>>=◌, ◌>>◌}
use aca_py_did_kanon.Prelude.Hex.{codes}
use aca_py_did_kanon.Prelude.Value.{Value, Fields, end, field}
use aca_py_did_kanon.Web3.{Web3}
use aca_py_did_kanon.Storage.{Storage, Json, parsed, corrupt}
use aca_py_did_kanon.Identifiers.{cred_def_resource_id}
use aca_py_did_kanon.Contracts.Convert.{raw}
use aca_py_did_kanon.Contracts.MerkleState.{Receipt}
use aca_py_did_kanon.Contracts.Transaction.{Node}
use aca_py_did_kanon.Contracts.CredDefRegistry.{CredDefArgs, CredDefTuple, tier_zk_snark}
use aca_py_did_kanon.Contracts.CredDefRegistry.{
  register_credential_definition as send_cred_def, get_credential_definition as read_cred_def,
}
use aca_py_did_kanon.Zk.IssuerKey.{IssuerKey, KeyRecord, KeyWorld, provision_public_key}
use aca_py_did_kanon.Anoncreds.Revocation.{has_tier}
use aca_py_did_kanon.Anoncreds.Registry.{
  client_as, data_uri_from_canonical, decode_data_uri, issuer_org_id, resolve_policy_mask,
}

-- A credential definition, with the object that it serialises to.
pub record NewCredDef : Type 0 where
  pub issuer_id : Bytes
  pub schema_id : Bytes
  pub tag : Bytes
  pub body : Fields

-- `_CRED_DEF_RECORD`
abbrev pub cred_def_record_type : Bytes
cred_def_record_type = codes "kanon_cred_def_body"

module _ {S : Type 0} (bodies : Storage (Json Fields) S) where
  -- `_store_cred_def_body`: an `add_record` that raises is followed by an update.
  unfoldable pub store_cred_def_body : Bytes → Fields → Exec (KeyWorld S) (Unit {0})
  store_cred_def_body cred_def_id body world =
      elim (bodies.add_record world.store cred_def_record_type cred_def_id (parsed body)) [
        | ok s ↦ (ok tt, record world { store = s })
        | err e ↦
            elim (bodies.update_record world.store cred_def_record_type cred_def_id (parsed body)) [
              | ok s ↦ (ok tt, record world { store = s })
              | err d ↦ (err d, world)
            ]
      ]

  -- `_load_cred_def_body`: a record that is missing or does not parse is None.
  unfoldable pub load_cred_def_body : Bytes → Exec (KeyWorld S) (Option Fields)
  load_cred_def_body cred_def_id world =
      elim (bodies.get_record world.store cred_def_record_type cred_def_id) [
        | ok (some (parsed body)) ↦ (ok (some body), world)
        | ok (some corrupt) ↦ (ok none, world)
        | ok none ↦ (ok none, world)
        | err storage_not_found ↦ (ok none, world)
        | err e ↦ (err e, world)
      ]

  module _ (keys : Storage (Json KeyRecord) S) (w : Web3) where
    -- The issuer's key where the mask has the tier of Mode B, by a new service, and (0, 0) else.
    unfoldable pub issuer_zk_key : IssuerKey → ℕ → Bytes → Exec (KeyWorld S) (ℕ × ℕ)
    issuer_zk_key generated policy_mask cred_def_id world =
        elim (has_tier policy_mask tier_zk_snark) [
          | true ↦
              provision_public_key keys generated (raw (w.keccak_text cred_def_id))
                (record world { public_cache = [] })
          | false ↦ (ok (0, 0), world)
        ]

    -- The id and the transaction; the key that the service would generate is an argument.
    unfoldable pub register_credential_definition :
        (Fields → Bytes)
        → Result (Unit {0})
        → Bool
        → Node CredDefArgs
        → Value
        → IssuerKey
        → Bytes
        → NewCredDef
        → Fields
        → Exec (KeyWorld S) (Bytes × Receipt)
    unfolding issuer_org_id resolve_policy_mask store_cred_def_body issuer_zk_key
        data_uri_from_canonical
    register_credential_definition canonical connected has_key node net_default generated
          schema_name cred_def options =
        do
          org_id ← lift (issuer_org_id cred_def.issuer_id)
          let cred_def_id = cred_def_resource_id cred_def.issuer_id schema_name cred_def.tag
          let bytes = canonical cred_def.body
          policy_mask ← lift (resolve_policy_mask options net_default)
          store_cred_def_body cred_def_id cred_def.body
          lift connected
          key ← issuer_zk_key generated policy_mask cred_def_id
          tx ← lift (
              client_as registration_error (
                send_cred_def has_key node (raw (w.keccak_text cred_def_id))
                  (raw (w.keccak_text cred_def.schema_id)) (raw (w.keccak bytes)) policy_mask
                  (data_uri_from_canonical bytes) key.0 key.1))
          pure (cred_def_id, tx)

    -- The body on chain, from the URI of the record.
    unfoldable pub cred_def_on_chain :
        (Bytes → Option Value) → Result (Option CredDefTuple) → Result Fields
    unfolding decode_data_uri
    cred_def_on_chain loads (err e) = client_as resolution_error (err e)
    cred_def_on_chain loads (ok none) = err object_not_found
    cred_def_on_chain loads (ok (some r)) = elim (decode_data_uri loads r.uri) [
      | none ↦ err resolution_error
      | some end ↦ err resolution_error
      | some (field k v fs) ↦ ok (field k v fs)
    ]

    -- The body in the wallet or on chain. `deserialize` makes the credential definition of it, and
    -- `strip` takes its revocation key away.
    unfoldable pub get_credential_definition :
        {D : Type 0}
        → (Bytes → Option Value)
        → (Fields → Result D)
        → (D → D)
        → Result (Unit {0})
        → (Bytes → Result CredDefTuple)
        → Bytes
        → Exec (KeyWorld S) D
    unfolding load_cred_def_body cred_def_on_chain
    get_credential_definition loads deserialize strip connected view cred_def_id = do
      local ← load_cred_def_body cred_def_id
      body ← elim local [
        | some b ↦ pure b
        | none ↦ do
          lift connected
          lift (cred_def_on_chain loads (read_cred_def view (raw (w.keccak_text cred_def_id))))
      ]
      cred_def ← lift (deserialize body)
      pure (strip cred_def)
