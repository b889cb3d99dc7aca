-- ===== src/Anoncreds/Revocation/Outcomes.antt =====
-- anoncreds/registry.py: what update_revocation_list does on its branches.
use aca_py_did_kanon.Prelude.{
  ℕ, ◌≡◌, suc, ◌+◌, ◌⊎◌, arith, refl, sym, ap, subst, ◌∙◌, true, some, List, [], ◌∷◌, ◌++◌, map,
  length, Bytes, Error, registration_error, Result, ok, err,
}
use aca_py_did_kanon.Prelude.Hex.{codes}
use aca_py_did_kanon.Storage.{StorageLaws, StorageFrame}
use aca_py_did_kanon.Contracts.CredDefRegistry.{tier_one_time, tier_zk_snark}
use aca_py_did_kanon.Anoncreds.RevregState.{RevregMeta, load_revreg_meta, lookup_cred_id}
use aca_py_did_kanon.Anoncreds.RevregState.Lookup.{load_revreg_meta-save}
use aca_py_did_kanon.Anoncreds.Revocation.{
  RevRegDef, RevList, RevListResult, Backend, Agent, rev_reg_id_of, has_tier, load_meta,
  get_revocation_list,
}
use aca_py_did_kanon.Anoncreds.Revocation.Lists.{not_empty, get_revocation_list-listed}
use aca_py_did_kanon.Anoncreds.Revocation.Dispatch.{
  translate, revoke_all, update_revocation_list, with_list,
}
use aca_py_did_kanon.Anoncreds.Revocation.Steps.{
  length-translate, publish-ok, revoke_all-did, revoke_all-unmapped, revoke_all-ok,
}
use aca_py_did_kanon.Anoncreds.Revocation.Sent.{RevokedIf, translate-found, when_tier-RevokedIf}

all_mapped : (missing : List ℕ) (n k : ℕ) → missing ≡ [] → length missing + n ≡ k → n ≡ k
all_mapped missing n k e h = let zero_long : length missing ≡ 0 = ap length e in omega arith

module _ {S C : Type 0} (b : Backend S C) where
  -- Where the metadata of the registry binds a credDef id that starts with "did:", as every id of this
  -- method does, and a mask with the tier of Mode B, an update that revokes at least one index raises,
  -- whatever the storage and the chain answer: the registration error, or what making the registries'
  -- clients raises.
  pub update_revocation_list-did :
      (d : RevRegDef) (curr_list : RevList) (crid : ℕ) (revoked : List ℕ) (agent : Agent S C)
      (meta : RevregMeta) (rest : Bytes)
      → load_meta b.metas (rev_reg_id_of d) agent ≡ some meta
      → meta.cred_def_id ≡ codes "did:" ++ rest
      → has_tier meta.policy_mask tier_zk_snark ≡ true
      → (e : Error) × ((update_revocation_list b d curr_list (crid ∷ revoked) agent).0 ≡ err e)
        × ((e ≡ registration_error) ⊎ (b.registries.connected ≡ err e))
  unfolding update_revocation_list
  update_revocation_list-did d curr_list crid revoked agent meta rest stored is_did has_zk =
      rw stored
        (revoke_all-did b meta (rev_reg_id_of d) rest curr_list crid revoked agent is_did has_zk)

  -- Where the registry has metadata and some index of the list has no credId on record, the update raises
  -- the registration error and nothing was sent or written.
  pub update_revocation_list-unmapped :
      (d : RevRegDef) (curr_list : RevList) (crid m : ℕ) (missing revoked : List ℕ)
      (agent : Agent S C) (meta : RevregMeta)
      → load_meta b.metas (rev_reg_id_of d) agent ≡ some meta
      → (translate b agent.store (rev_reg_id_of d) (crid ∷ revoked)).0 ≡ m ∷ missing
      → update_revocation_list b d curr_list (crid ∷ revoked) agent
        ≡ (err registration_error, agent)
  unfolding update_revocation_list
  update_revocation_list-unmapped d curr_list crid m missing revoked agent meta stored h =
      rw stored
        (revoke_all-unmapped b meta (rev_reg_id_of d) curr_list m missing (crid ∷ revoked) agent h)

  -- Where an update that revokes indices returns, and the storage reads back what is written: each index
  -- has its credId on record; if the mask has the tier of Mode A, then for these credIds one after the
  -- other, in the order of the indices, the ledger took a transaction that revokes the hash of the credId
  -- under the hash of the credDef, with status 1, and nothing else went to that ledger, while without the
  -- tier nothing went to it; the count is that of the indices; and the list that the registry then gives
  -- is the one that was handed in.
  pub update_revocation_list-ok :
      (deserialize : Bytes → Result RevList) (d : RevRegDef) (curr_list : RevList) (crid : ℕ)
      (revoked : List ℕ) (agent agent' : Agent S C) (meta : RevregMeta) (result : RevListResult)
      → StorageLaws b.metas
      → StorageFrame b.metas
      → deserialize curr_list.json ≡ ok curr_list
      → not_empty curr_list.json ≡ true
      → load_meta b.metas (rev_reg_id_of d) agent ≡ some meta
      → update_revocation_list b d curr_list (crid ∷ revoked) agent ≡ (ok result, agent')
      → (cred_ids : List Bytes) × (map
            (λ i. lookup_cred_id b.indices agent.store (rev_reg_id_of d) i)
            (crid ∷ revoked)
          ≡ map some cred_ids)
        × RevokedIf b.w b.registries
            (b.w.keccak_text meta.cred_def_id)
            (has_tier meta.policy_mask tier_one_time)
            agent.ledger
            cred_ids
            agent'.ledger
        × (result.revoked_count ≡ some (suc (length revoked)))
        × (get_revocation_list b.metas deserialize (rev_reg_id_of d) agent'
            ≡ (ok (curr_list, meta.policy_mask), agent'))
  unfolding update_revocation_list get_revocation_list load_meta
  update_revocation_list-ok deserialize d curr_list crid revoked agent agent' meta result laws frame
        parses filled stored h =
      let rid = rev_reg_id_of d in
      let found = translate b agent.store rid (crid ∷ revoked) in
      let run : revoke_all b meta rid curr_list (crid ∷ revoked) agent ≡ (ok result, agent') =
        sym (rw stored refl) ∙ h in
      let (none_missing, published) =
        revoke_all-ok b meta rid curr_list (crid ∷ revoked) agent agent' result run in
      let (sent, e, kept, saved, written, counted) =
        publish-ok b meta rid curr_list found.1 agent agent' result published in
      let tier = has_tier meta.policy_mask tier_one_time in
      let cd = b.w.keccak_text meta.cred_def_id in
      let size : length found.1 ≡ suc (length revoked) =
        all_mapped found.0 (length found.1) _ none_missing
          (length-translate b agent.store rid (crid ∷ revoked)) in
      let loaded : load_revreg_meta b.metas agent'.store rid ≡ some (with_list meta rid curr_list) =
        (load_revreg_meta-save b.metas laws frame saved agent'.store (with_list meta rid curr_list)
          rid written).0 in
      (
        found.1,
        translate-found b agent.store rid (crid ∷ revoked) none_missing,
        subst (RevokedIf b.w b.registries cd tier agent.ledger found.1) kept
            (when_tier-RevokedIf b tier cd found.1 agent sent e),
        counted ∙ ap some size,
        get_revocation_list-listed b.metas deserialize rid curr_list.json curr_list agent'
            (with_list meta rid curr_list) filled parses loaded,
      )
