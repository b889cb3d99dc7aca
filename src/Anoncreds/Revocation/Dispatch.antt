-- ===== src/Anoncreds/Revocation/Dispatch.antt =====
-- anoncreds/registry.py: update_revocation_list.
use aca_py_did_kanon.Prelude.{
  ℕ, Bool, true, false, Option, none, some, List, [], ◌∷◌, length, Bytes, registration_error,
  Result, ok, err,
}
use aca_py_did_kanon.Prelude.Exec.{Exec, pure, lift, gets, ◌>>=◌, ◌>>◌}
use aca_py_did_kanon.Contracts.Convert.{raw, text}
use aca_py_did_kanon.Contracts.StatusRegistry.{revoke_credential}
use aca_py_did_kanon.Contracts.MerkleState.{Receipt}
use aca_py_did_kanon.Contracts.CredDefRegistry.{tier_one_time, tier_zk_snark}
use aca_py_did_kanon.Zk.Issuer.Methods.{revoke}
use aca_py_did_kanon.Anoncreds.RevregState.{RevregMeta, lookup_cred_id}
use aca_py_did_kanon.Anoncreds.Revocation.{
  RevRegDef, RevList, RevListResult, Backend, Agent, rev_reg_id_of, has_tier, refused, found,
  save_meta, load_meta,
}

abbrev pub all_found : List ℕ → Result (Unit {0})
all_found [] = ok tt
all_found (m ∷ missing) = err registration_error

-- One index, with its credId or without.
abbrev pub noted : ℕ → Option Bytes → List ℕ × List Bytes → List ℕ × List Bytes
noted crid none (missing, cred_ids) = (crid ∷ missing, cred_ids)
noted crid (some cred_id) (missing, cred_ids) = (missing, cred_id ∷ cred_ids)

-- The metadata with another list.
abbrev pub with_list : RevregMeta → Bytes → RevList → RevregMeta
with_list meta rev_reg_id curr_list = record meta {
  rev_reg_id = rev_reg_id;
  initial_rev_list = some curr_list.json;
}

abbrev pub when_tier : {S : Type 0} → Bool → Exec S (Unit {0}) → Exec S (Unit {0})
when_tier true step = step
when_tier false step = pure tt

module _ {S C : Type 0} (b : Backend S C) where
  -- The indices that no credId is known for, and the credIds of the others.
  unfoldable pub translate : S → Bytes → List ℕ → List ℕ × List Bytes
  translate s rev_reg_id [] = ([], [])
  translate s rev_reg_id (crid ∷ revoked) =
      noted crid (lookup_cred_id b.indices s rev_reg_id crid) (translate s rev_reg_id revoked)

  -- `status.revoke_credential(cd_bytes, keccak(text=cid))`
  unfoldable pub revoke_status : Bytes → Bytes → Exec (Agent S C) Receipt
  revoke_status cd cid agent =
      let cred_id_hash = raw (b.w.keccak_text cid) in
      (
        refused (
            revoke_credential b.registries.has_key (b.registries.node agent.ledger) (raw cd)
              cred_id_hash),
        record agent { ledger = b.registries.settled (raw cd) cred_id_hash agent.ledger },
      )

  -- Mode A, credential by credential.
  unfoldable pub revoke_statuses : Bytes → List Bytes → Exec (Agent S C) (Unit {0})
  unfolding revoke_status
  revoke_statuses cd [] = pure tt
  revoke_statuses cd (cid ∷ cred_ids) = do revoke_status cd cid; revoke_statuses cd cred_ids

  -- Mode B, by a new issuer object. The credDef's id goes to it as it is.
  unfoldable pub revoke_leaves : Bytes → List Bytes → Exec (Agent S C) (Unit {0})
  revoke_leaves cred_def_id cred_ids agent =
      let (outcome, world) =
        revoke b.checkpoints b.chain b.w b.constants (text cred_def_id) cred_ids
          (record { cache = []; chain_initialized = []; store = agent.store }) in
      (
        elim outcome [ ok receipt ↦ ok tt | err e ↦ err registration_error ],
        record agent { store = world.store },
      )

  -- The tiers of the mask, one after the other, and the new list.
  unfoldable pub publish :
      RevregMeta → Bytes → RevList → List Bytes → Exec (Agent S C) RevListResult
  unfolding revoke_statuses revoke_leaves save_meta
  publish meta rev_reg_id curr_list cred_ids = do
    when_tier (has_tier meta.policy_mask tier_one_time)
        (revoke_statuses (b.w.keccak_text meta.cred_def_id) cred_ids)
    when_tier (has_tier meta.policy_mask tier_zk_snark) (revoke_leaves meta.cred_def_id cred_ids)
    save_meta b.metas (with_list meta rev_reg_id curr_list)
    pure (record {
      revocation_list = curr_list;
      policy_mask = meta.policy_mask;
      revoked_count = some (length cred_ids);
    })

  -- What follows the metadata, for a list of indices that is not empty.
  unfoldable pub revoke_all : RevregMeta → Bytes → RevList → List ℕ → Exec (Agent S C) RevListResult
  unfolding translate publish
  revoke_all meta rev_reg_id curr_list revoked = do
    (missing, cred_ids) ← gets (λ agent. translate agent.store rev_reg_id revoked)
    lift (all_found missing)
    lift b.registries.connected
    publish meta rev_reg_id curr_list cred_ids

  -- An empty list of indices only stores the list.
  unfoldable pub update_revocation_list :
      RevRegDef → RevList → List ℕ → Exec (Agent S C) RevListResult
  unfolding rev_reg_id_of load_meta revoke_all save_meta
  update_revocation_list d curr_list revoked = do
    stored ← gets (load_meta b.metas (rev_reg_id_of d))
    meta ← lift (found stored registration_error)
    elim revoked [
      | [] ↦ do
        save_meta b.metas (with_list meta (rev_reg_id_of d) curr_list)
        pure (record {
          revocation_list = curr_list;
          policy_mask = meta.policy_mask;
          revoked_count = none;
        })
      | crid ∷ rest ↦ revoke_all meta (rev_reg_id_of d) curr_list (crid ∷ rest)
    ]
