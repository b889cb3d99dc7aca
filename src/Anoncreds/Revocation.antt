-- ===== src/Anoncreds/Revocation.antt =====
-- anoncreds/registry.py: the revocation methods of `KanonAnonCredsRegistry`, on the wallet's storage and
-- the ledger of the status registry. A definition or a list of ACA-Py stands with the JSON text that it
-- serialises to; what reads the text back is an argument.
pub mod Dispatch
pub mod Steps
pub mod Sent
pub mod Outcomes
pub mod Lists
mod Tests
use Prim.Native.Nat.{bit_and}
use aca_py_did_kanon.Prelude.{
  ℕ, Bool, true, false, not, Option, none, some, List, [], ◌∷◌, ◌++◌, length, ◌==◌, if◌then◌else◌,
  Bytes, Error, client_error, registration_error, object_not_found, Result, ok, err,
}
use aca_py_did_kanon.Prelude.Exec.{Exec, pure, raise, lift, gets, ◌>>=◌, ◌>>◌}
use aca_py_did_kanon.Prelude.Hex.{codes}
use aca_py_did_kanon.Web3.{Web3}
use aca_py_did_kanon.Storage.{Storage, Json}
use aca_py_did_kanon.Contracts.Convert.{BytesLike, raw, text}
use aca_py_did_kanon.Contracts.MerkleState.{Receipt}
use aca_py_did_kanon.Contracts.Transaction.{Node}
use aca_py_did_kanon.Contracts.StatusRegistry.{revoke_credential}
use aca_py_did_kanon.Contracts.CredDefRegistry.{
  CredDefTuple, get_credential_definition, tier_one_time, tier_zk_snark,
}
use aca_py_did_kanon.Zk.Poseidon.{Constants}
use aca_py_did_kanon.Zk.Issuer.State.{Checkpoint}
use aca_py_did_kanon.Zk.Issuer.Sync.{Chain}
use aca_py_did_kanon.Zk.Issuer.Methods.{World, revoke}
use aca_py_did_kanon.Anoncreds.RevregState.{
  RevregMeta, save_revreg_meta, load_revreg_meta, lookup_cred_id,
}

pub record RevRegDef : Type 0 where
  pub cred_def_id : Bytes
  pub tag : Bytes
  pub rev_reg_def_id : Option Bytes
  pub max_cred_num : ℕ
  pub json : Bytes

pub record RevList : Type 0 where
  pub rev_reg_def_id : Bytes
  pub json : Bytes

-- A result's list, with `policy_mask` and `revoked_count` of its metadata.
pub record RevListResult : Type 0 where
  pub revocation_list : RevList
  pub policy_mask : ℕ
  pub revoked_count : Option ℕ

-- The chain as the two registry clients see it in a state of the ledger; `settled` is the ledger after
-- a call of `revokeCredential`.
pub record Registries (C : Type 0) : Type 0 where
  -- `for_network` gives the clients, or raises.
  pub connected : Result (Unit {0})
  pub has_key : Bool
  pub node : C → Node (Bytes × Bytes)
  pub settled : BytesLike → BytesLike → C → C
  pub cred_def_view : C → Bytes → Result CredDefTuple

pub record Agent (S C : Type 0) : Type 0 where
  pub store : S
  pub ledger : C

-- What the methods work with: the wallet's records by kind, web3, the registries' chain, and the chain
-- and the Poseidon tables of the Mode B issuer.
pub record Backend (S C : Type 0) : Type 0 where
  pub metas : Storage (Json RevregMeta) S
  pub indices : Storage Bytes S
  pub checkpoints : Storage Checkpoint S
  pub w : Web3
  pub registries : Registries C
  pub chain : Chain
  pub constants : Constants

-- `f"{cred_def_id}/revoc/{tag}"`, where the definition brings no id.
unfoldable pub rev_reg_id_of : RevRegDef → Bytes
rev_reg_id_of d = elim d.rev_reg_def_id [
  | none ↦ d.cred_def_id ++ (codes "/revoc/" ++ d.tag)
  | some [] ↦ d.cred_def_id ++ (codes "/revoc/" ++ d.tag)
  | some (b ∷ bs) ↦ b ∷ bs
]

-- `policy_mask & tier`
unfoldable pub has_tier : ℕ → ℕ → Bool
has_tier mask tier = not (bit_and mask tier == 0)

-- `except RegistryClientError`
abbrev pub registering {ℓ} : {A : Type ℓ} → Result A → Result A
registering (ok a) = ok a
registering (err client_error) = err registration_error
registering (err e) = err e

-- `except Exception`
abbrev pub refused {ℓ} : {A : Type ℓ} → Result A → Result A
refused (ok a) = ok a
refused (err e) = err registration_error

-- Whether `meta.get("initial_rev_list")` holds a text.
abbrev pub listed : RevregMeta → Result Bytes
listed meta = elim meta.initial_rev_list [
  | none ↦ err object_not_found
  | some [] ↦ err object_not_found
  | some (b ∷ bs) ↦ ok (b ∷ bs)
]

abbrev pub found : Option RevregMeta → Error → Result RevregMeta
found none e = err e
found (some meta) e = ok meta

module _ {S C : Type 0} (metas : Storage (Json RevregMeta) S) where
  unfoldable pub save_meta : RevregMeta → Exec (Agent S C) (Unit {0})
  save_meta meta agent = elim (save_revreg_meta metas agent.store meta) [
    | ok store ↦ (ok tt, record agent { store = store })
    | err e ↦ (err e, agent)
  ]

  unfoldable pub load_meta : Bytes → Agent S C → Option RevregMeta
  load_meta rev_reg_id agent = load_revreg_meta metas agent.store rev_reg_id

  unfoldable pub get_revocation_registry_definition :
      (Bytes → Result RevRegDef) → Bytes → Exec (Agent S C) (RevRegDef × ℕ)
  unfolding load_meta
  get_revocation_registry_definition deserialize rev_reg_id = do
    stored ← gets (load_meta rev_reg_id)
    meta ← lift (found stored object_not_found)
    rev_reg_def ← lift (deserialize meta.rev_reg_def)
    pure (rev_reg_def, meta.policy_mask)

  unfoldable pub get_revocation_list :
      (Bytes → Result RevList) → Bytes → Exec (Agent S C) (RevList × ℕ)
  unfolding load_meta
  get_revocation_list deserialize rev_reg_id = do
    stored ← gets (load_meta rev_reg_id)
    meta ← lift (found stored object_not_found)
    json ← lift (listed meta)
    rev_list ← lift (deserialize json)
    pure (rev_list, meta.policy_mask)

  module _ (w : Web3) (r : Registries C) where
    -- `for_network().cred_def.get_credential_definition(_b32(cred_def_id))`
    unfoldable pub cred_def_record : Bytes → Agent S C → Result (Option CredDefTuple)
    cred_def_record cred_def_id agent = elim r.connected [
      | ok u ↦
          get_credential_definition (r.cred_def_view agent.ledger) (raw (w.keccak_text cred_def_id))
      | err e ↦ err e
    ]

    abbrev pub mask_on_chain : Option CredDefTuple → Result ℕ
    mask_on_chain none = err registration_error
    mask_on_chain (some c) = ok c.policy_mask

    unfoldable pub register_revocation_registry_definition :
        RevRegDef → Exec (Agent S C) (Bytes × ℕ)
    unfolding rev_reg_id_of save_meta cred_def_record
    register_revocation_registry_definition d = do
      cd_record ← (λ agent. (registering (cred_def_record d.cred_def_id agent), agent))
      policy_mask ← lift (mask_on_chain cd_record)
      save_meta (record {
        rev_reg_id = rev_reg_id_of d;
        cred_def_id = d.cred_def_id;
        policy_mask = policy_mask;
        max_cred_num = d.max_cred_num;
        rev_reg_def = d.json;
        initial_rev_list = none;
      })
      pure (rev_reg_id_of d, policy_mask)

    -- The mask of the metadata, or that of the chain, or Mode A.
    unfoldable pub mask_for : RevRegDef → Option RevregMeta → Exec (Agent S C) ℕ
    unfolding cred_def_record
    mask_for d (some meta) agent = (ok meta.policy_mask, agent)
    mask_for d none agent = elim (cred_def_record d.cred_def_id agent) [
      | ok (some c) ↦ (ok c.policy_mask, agent)
      | ok none ↦ (ok tier_one_time, agent)
      | err e ↦ (err e, agent)
    ]

    unfoldable pub register_revocation_list : RevRegDef → RevList → Exec (Agent S C) RevListResult
    unfolding load_meta mask_for save_meta
    register_revocation_list d rev_list = do
      stored ← gets (load_meta rev_list.rev_reg_def_id)
      policy_mask ← mask_for d stored
      save_meta (record {
        rev_reg_id = rev_list.rev_reg_def_id;
        cred_def_id = d.cred_def_id;
        policy_mask = policy_mask;
        max_cred_num = d.max_cred_num;
        rev_reg_def = d.json;
        initial_rev_list = some rev_list.json;
      })
      pure (record { revocation_list = rev_list; policy_mask = policy_mask; revoked_count = none })
