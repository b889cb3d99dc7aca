-- ===== src/Anoncreds/Revocation/Sent.antt =====
-- anoncreds/registry.py: what update_revocation_list has sent to the ledger of Mode A, and for which
-- indices.
use aca_py_did_kanon.Prelude.{
  ℕ, ◌≡◌, refl, sym, ap, subst, Bool, true, false, Option, none, some, List, [], ◌∷◌, map, Bytes,
  Result, ok, err, err_ne_ok,
}
use aca_py_did_kanon.Prelude.Exec.{ran}
use aca_py_did_kanon.Web3.{Web3}
use aca_py_did_kanon.Contracts.Convert.{raw}
use aca_py_did_kanon.Contracts.MerkleState.{Receipt}
use aca_py_did_kanon.Contracts.StatusRegistry.{revoke_credential}
use aca_py_did_kanon.Contracts.StatusRegistry.Sent.{Revocation, revoke_credential-Revocation}
use aca_py_did_kanon.Anoncreds.RevregState.{lookup_cred_id}
use aca_py_did_kanon.Anoncreds.Revocation.{Registries, Backend, Agent, refused}
use aca_py_did_kanon.Anoncreds.Revocation.Dispatch.{
  noted, translate, revoke_status, revoke_statuses, when_tier,
}

module _ {C : Type 0} (w : Web3) (r : Registries C) (cd : Bytes) where
  -- The way of the ledger through the revocations of some credentials, one after the other.
  abbrev pub Revoked : C → List Bytes → C → Type 0
  Revoked c [] c' = c' ≡ c
  Revoked c (cid ∷ cids) c' =
      Revocation (r.node c) cd (w.keccak_text cid)
      × Revoked (r.settled (raw cd) (raw (w.keccak_text cid)) c) cids c'

  -- The same if the tier is in the mask; else the ledger stays.
  abbrev pub RevokedIf : Bool → C → List Bytes → C → Type 0
  RevokedIf true c cids c' = Revoked c cids c'
  RevokedIf false c cids c' = c' ≡ c

refused-ok : {A : Type 0} (r : Result A) (a : A) → refused r ≡ ok a → r ≡ ok a
refused-ok (ok x) a h = h
refused-ok (err e) a h = absurd (err_ne_ok h)

noted-found :
    (crid : ℕ) (known : Option Bytes) (rest : List ℕ × List Bytes) (xs : List (Option Bytes))
    → (rest.0 ≡ [] → xs ≡ map some rest.1)
    → (noted crid known rest).0 ≡ []
    → known ∷ xs ≡ map some ((noted crid known rest).1)
noted-found crid none rest xs tail h = cc
noted-found crid (some cred_id) rest xs tail h = ap (λ ys. some cred_id ∷ ys) (tail h)

module _ {S C : Type 0} (b : Backend S C) where
  -- Where no index is missing, the credIds are those on record, in the order of the indices.
  pub translate-found :
      (s : S) (rev_reg_id : Bytes) (revoked : List ℕ)
      → (translate b s rev_reg_id revoked).0 ≡ []
      → map (λ i. lookup_cred_id b.indices s rev_reg_id i) revoked
        ≡ map some ((translate b s rev_reg_id revoked).1)
  unfolding translate
  translate-found s rev_reg_id [] h = refl
  translate-found s rev_reg_id (crid ∷ revoked) h =
      noted-found crid (lookup_cred_id b.indices s rev_reg_id crid)
        (translate b s rev_reg_id revoked) _ (translate-found s rev_reg_id revoked) h

  revoke_statuses-Revoked :
      (cd : Bytes) (cred_ids : List Bytes) (agent agent' : Agent S C) {a : Unit {0}}
      → revoke_statuses b cd cred_ids agent ≡ (ok a, agent')
      → Revoked b.w b.registries cd agent.ledger cred_ids agent'.ledger
  unfolding revoke_statuses revoke_status
  revoke_statuses-Revoked cd [] agent agent' h =
      sym (ap (λ (p : Result (Unit {0}) × Agent S C). p.1.ledger) h)
  revoke_statuses-Revoked cd (cid ∷ cred_ids) agent agent' h =
      let (receipt, next, e, rest) =
        ran (revoke_status b cd cid) agent (λ _. revoke_statuses b cd cred_ids) h in
      let sent =
        refused-ok
          (revoke_credential b.registries.has_key (b.registries.node agent.ledger) (raw cd)
            (raw (b.w.keccak_text cid)))
          receipt (ap (λ (p : Result Receipt × Agent S C). p.0) e) in
      (
        revoke_credential-Revocation b.registries.has_key (b.registries.node agent.ledger) cd
            (b.w.keccak_text cid) receipt sent,
        subst (λ c. Revoked b.w b.registries cd c cred_ids agent'.ledger)
            (sym (ap (λ (p : Result Receipt × Agent S C). p.1.ledger) e))
            (revoke_statuses-Revoked cd cred_ids next agent' rest),
      )

  pub when_tier-RevokedIf :
      (tier : Bool) (cd : Bytes) (cred_ids : List Bytes) (agent agent' : Agent S C) {a : Unit {0}}
      → when_tier tier (revoke_statuses b cd cred_ids) agent ≡ (ok a, agent')
      → RevokedIf b.w b.registries cd tier agent.ledger cred_ids agent'.ledger
  when_tier-RevokedIf true cd cred_ids agent agent' h =
      revoke_statuses-Revoked cd cred_ids agent agent' h
  when_tier-RevokedIf false cd cred_ids agent agent' h =
      sym (ap (λ (p : Result (Unit {0}) × Agent S C). p.1.ledger) h)
