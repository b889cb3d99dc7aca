-- ===== src/Anoncreds/Revocation/Steps.antt =====
-- anoncreds/registry.py: the parts of update_revocation_list, and what they leave.
use mathlib.Core.Path.{ap₂}
use aca_py_did_kanon.Prelude.{
  ℕ, ◌≡◌, suc, ◌+◌, ◌⊎◌, arith, refl, sym, ap, ◌∙◌, Bool, true, false, Option, none, some, List, [],
  ◌∷◌, ◌++◌, length, Bytes, Error, registration_error, Result, ok, err, err_inj, err_ne_ok,
  Result-cases, inl, inr,
}
use aca_py_did_kanon.Prelude.Exec.{Exec, lift, continue, ran, ◌>>◌}
use aca_py_did_kanon.Prelude.Hex.{
  codes, from_hex, hex_digit, is_space, starts_with, lower, lower_char,
}
use aca_py_did_kanon.Storage.{Storage, Json}
use aca_py_did_kanon.Zk.Leaf.{cred_def_id_bytes, strip_0x}
use aca_py_did_kanon.Contracts.CredDefRegistry.{tier_one_time, tier_zk_snark}
use aca_py_did_kanon.Zk.Issuer.Methods.{revoke}
use aca_py_did_kanon.Anoncreds.RevregState.{RevregMeta, save_revreg_meta, lookup_cred_id}
use aca_py_did_kanon.Anoncreds.Revocation.{
  RevList, RevListResult, Backend, Agent, has_tier, refused, save_meta,
}
use aca_py_did_kanon.Anoncreds.Revocation.Dispatch.{
  noted, translate, all_found, revoke_status, revoke_statuses, publish, revoke_leaves, revoke_all,
  when_tier, with_list,
}

-- A call that raises nothing but the registration error.
abbrev OnlyRegistration : {A : Type 0} → Result A → Type 0
OnlyRegistration (ok a) = Unit
OnlyRegistration (err e) = e ≡ registration_error

refused-Only : {A : Type 0} (r : Result A) → OnlyRegistration (refused r)
refused-Only (ok a) = tt
refused-Only (err e) = refl

continue-Only :
    {S A B : Type 0} (r : Result A) (s : S) (f : A → Exec S B)
    → OnlyRegistration r
    → ((a : A) (t : S) → OnlyRegistration ((f a t).0))
    → OnlyRegistration ((continue (r, s) f).0)
continue-Only (ok a) s f h g = g a s
continue-Only (err e) s f h g = h

-- After such a call, what raises the error whatever the value.
continue-raises :
    {S A B : Type 0} (r : Result A) (s : S) (f : A → Exec S B)
    → OnlyRegistration r
    → ((a : A) (t : S) → (f a t).0 ≡ err registration_error)
    → (continue (r, s) f).0 ≡ err registration_error
continue-raises (ok a) s f h g = g a s
continue-raises (err e) s f h g = ap err h

continue-err :
    {S A B : Type 0} (r : Result A) (s : S) (f : A → Exec S B) {e : Error}
    → r ≡ err e
    → (continue (r, s) f).0 ≡ err e
continue-err (ok a) s f h = absurd (err_ne_ok (sym h))
continue-err (err e) s f h = ap err (err_inj h)

-- A call that raises the registration error, or what making the clients does.
abbrev pub Refuses : {A : Type 0} → Result (Unit {0}) → Result A → Type 0
Refuses connected r = (e : Error) × (r ≡ err e) × ((e ≡ registration_error) ⊎ (connected ≡ err e))

continue-Refuses :
    {S A : Type 0} (r : Result (Unit {0})) (s : S) (f : Unit {0} → Exec S A)
    → ((u : Unit {0}) → (f u s).0 ≡ err registration_error)
    → Refuses r ((continue (r, s) f).0)
continue-Refuses (ok u) s f h = (registration_error, h u, inl refl)
continue-Refuses (err e) s f h = (e, refl, inr refl)

save_meta-ok :
    {S C : Type 0} (metas : Storage (Json RevregMeta) S) (meta : RevregMeta)
    (agent agent' : Agent S C) {a : Unit {0}}
    → save_meta metas meta agent ≡ (ok a, agent')
    → (save_revreg_meta metas agent.store meta ≡ ok agent'.store) × (agent'.ledger ≡ agent.ledger)
unfolding save_meta
save_meta-ok {C = C} metas meta agent agent' h =
    elim (Result-cases (save_revreg_meta metas agent.store meta)) [
      | inl (store, e) ↦
          let run : save_meta metas meta agent ≡ (ok tt, record agent { store = store }) =
            rw (e, save_meta) refl in
          let same : record agent { store = store } ≡ agent' = ap (λ p. p.1) (sym run ∙ h) in
          (e ∙ ap (λ g. ok g.store) same, sym (ap (λ g. g.ledger) same))
      | inr (why, e) ↦
          let run : save_meta metas meta agent ≡ (err why, agent) = rw (e, save_meta) refl in
          absurd (err_ne_ok (ap (λ p. p.0) (sym run ∙ h)))
    ]

length-noted :
    (crid : ℕ) (known : Option Bytes) (rest : List ℕ × List Bytes) {n : ℕ}
    → length rest.0 + length rest.1 ≡ n
    → length ((noted crid known rest).0) + length ((noted crid known rest).1) ≡ suc n
length-noted crid none rest h = omega (arith, h)
length-noted crid (some cred_id) rest h = omega (arith, h)

module _ {S C : Type 0} (b : Backend S C) where
  -- Every index is missing or has its credId.
  pub length-translate :
      (s : S) (rev_reg_id : Bytes) (revoked : List ℕ)
      → length ((translate b s rev_reg_id revoked).0)
          + length ((translate b s rev_reg_id revoked).1)
        ≡ length revoked
  unfolding translate
  length-translate s rev_reg_id [] = refl
  length-translate s rev_reg_id (crid ∷ revoked) =
      length-noted crid (lookup_cred_id b.indices s rev_reg_id crid)
        (translate b s rev_reg_id revoked) (length-translate s rev_reg_id revoked)

  -- A text that starts with "did:" is not the hex form of 32 bytes.
  revoke_leaves-did :
      (rest cid : Bytes) (cred_ids : List Bytes) (agent : Agent S C)
      → (revoke_leaves b (codes "did:" ++ rest) (cid ∷ cred_ids) agent).0 ≡ err registration_error
  unfolding revoke_leaves revoke cred_def_id_bytes strip_0x from_hex hex_digit is_space starts_with
      lower lower_char
  revoke_leaves-did rest cid cred_ids agent = refl

  revoke_statuses-Only :
      (cd : Bytes) (cred_ids : List Bytes) (agent : Agent S C)
      → OnlyRegistration ((revoke_statuses b cd cred_ids agent).0)
  unfolding revoke_statuses revoke_status
  revoke_statuses-Only cd [] agent = tt
  revoke_statuses-Only cd (cid ∷ cred_ids) agent =
      continue-Only (refused _) _ (λ receipt. revoke_statuses b cd cred_ids) (refused-Only _)
        (λ receipt t. revoke_statuses-Only cd cred_ids t)

  when_tier-Only :
      (tier : Bool) (step : Exec (Agent S C) (Unit {0})) (agent : Agent S C)
      → OnlyRegistration ((step agent).0)
      → OnlyRegistration ((when_tier tier step agent).0)
  when_tier-Only true step agent h = h
  when_tier-Only false step agent h = tt

  publish-did :
      (meta : RevregMeta) (rev_reg_id rest cid : Bytes) (curr_list : RevList)
      (cred_ids : List Bytes) (agent : Agent S C)
      → meta.cred_def_id ≡ codes "did:" ++ rest
      → has_tier meta.policy_mask tier_zk_snark ≡ true
      → (publish b meta rev_reg_id curr_list (cid ∷ cred_ids) agent).0 ≡ err registration_error
  unfolding publish
  publish-did meta rev_reg_id rest cid curr_list cred_ids agent is_did has_zk =
      continue-raises _ _ _
        (when_tier-Only (has_tier meta.policy_mask tier_one_time)
          (revoke_statuses b (b.w.keccak_text meta.cred_def_id) (cid ∷ cred_ids)) agent
          (revoke_statuses-Only (b.w.keccak_text meta.cred_def_id) (cid ∷ cred_ids) agent))
        (λ a t. continue-err _ _ _ (
          ap₂ (λ tier id. (when_tier tier (revoke_leaves b id (cid ∷ cred_ids)) t).0) has_zk is_did
          ∙ revoke_leaves-did rest cid cred_ids t))

  -- What follows the translation of the indices.
  abbrev answered :
      RevregMeta → Bytes → RevList → List ℕ × List Bytes → Exec (Agent S C) RevListResult
  answered meta rev_reg_id curr_list found = do
    lift (all_found found.0)
    lift b.registries.connected
    publish b meta rev_reg_id curr_list found.1

  pub revoke_all-did :
      (meta : RevregMeta) (rev_reg_id rest : Bytes) (curr_list : RevList) (crid : ℕ)
      (revoked : List ℕ) (agent : Agent S C)
      → meta.cred_def_id ≡ codes "did:" ++ rest
      → has_tier meta.policy_mask tier_zk_snark ≡ true
      → Refuses b.registries.connected
          ((revoke_all b meta rev_reg_id curr_list (crid ∷ revoked) agent).0)
  unfolding revoke_all
  revoke_all-did meta rev_reg_id rest curr_list crid revoked agent is_did has_zk =
      split (translate b agent.store rev_reg_id (crid ∷ revoked))
        (length-translate agent.store rev_reg_id (crid ∷ revoked))
    where
      split :
          (found : List ℕ × List Bytes)
          → length found.0 + length found.1 ≡ suc (length revoked)
          → Refuses b.registries.connected ((answered meta rev_reg_id curr_list found agent).0)
      split (m ∷ missing, cred_ids) h = (registration_error, refl, inl refl)
      split ([], []) h = absurd (omega (arith, h))
      split ([], cid ∷ cred_ids) h =
          continue-Refuses b.registries.connected agent _
            (λ u. publish-did meta rev_reg_id rest cid curr_list cred_ids agent is_did has_zk)

  pub revoke_all-unmapped :
      (meta : RevregMeta) (rev_reg_id : Bytes) (curr_list : RevList) (m : ℕ)
      (missing revoked : List ℕ) (agent : Agent S C)
      → (translate b agent.store rev_reg_id revoked).0 ≡ m ∷ missing
      → revoke_all b meta rev_reg_id curr_list revoked agent ≡ (err registration_error, agent)
  unfolding revoke_all
  revoke_all-unmapped meta rev_reg_id curr_list m missing revoked agent h =
      ap
        (λ found.
          answered meta rev_reg_id curr_list (found, (translate b agent.store rev_reg_id revoked).1)
            agent)
        h

  revoke_leaves-ledger :
      (tier : Bool) (cred_def_id : Bytes) (cred_ids : List Bytes) (agent : Agent S C)
      → ((when_tier tier (revoke_leaves b cred_def_id cred_ids) agent).1).ledger ≡ agent.ledger
  unfolding revoke_leaves
  revoke_leaves-ledger true cred_def_id cred_ids agent = refl
  revoke_leaves-ledger false cred_def_id cred_ids agent = refl

  -- A run of `publish` that ended: what was sent and stored.
  pub publish-ok :
      (meta : RevregMeta) (rev_reg_id : Bytes) (curr_list : RevList) (cred_ids : List Bytes)
      (agent agent' : Agent S C) (result : RevListResult)
      → publish b meta rev_reg_id curr_list cred_ids agent ≡ (ok result, agent')
      → (sent : Agent S C) × (when_tier
            (has_tier meta.policy_mask tier_one_time)
            (revoke_statuses b (b.w.keccak_text meta.cred_def_id) cred_ids)
            agent
          ≡ (ok tt, sent))
        × (sent.ledger ≡ agent'.ledger)
        × (saved : S) × (save_revreg_meta b.metas saved (with_list meta rev_reg_id curr_list)
            ≡ ok agent'.store)
        × (result.revoked_count ≡ some (length cred_ids))
  unfolding publish
  publish-ok meta rev_reg_id curr_list cred_ids agent agent' result h =
      let (a, sent, e, h1) =
        ran
          (when_tier (has_tier meta.policy_mask tier_one_time)
            (revoke_statuses b (b.w.keccak_text meta.cred_def_id) cred_ids))
          agent _ h in
      let (a1, saved, e1, h2) =
        ran
          (when_tier (has_tier meta.policy_mask tier_zk_snark)
            (revoke_leaves b meta.cred_def_id cred_ids))
          sent _ h1 in
      let (a2, last, e2, h3) =
        ran (save_meta b.metas (with_list meta rev_reg_id curr_list)) saved _ h2 in
      let same_last : last ≡ agent' = ap (λ (p : Result RevListResult × Agent S C). p.1) h3 in
      let (stored, kept) =
        save_meta-ok b.metas (with_list meta rev_reg_id curr_list) saved last e2 in
      let same_ledger : saved.ledger ≡ sent.ledger =
        sym (ap (λ (p : Result (Unit {0}) × Agent S C). p.1.ledger) e1)
        ∙ revoke_leaves-ledger (has_tier meta.policy_mask tier_zk_snark) meta.cred_def_id cred_ids
            sent in
      (
        sent,
        e,
        sym same_ledger ∙ (sym kept ∙ ap (λ (g : Agent S C). g.ledger) same_last),
        saved.store,
        stored ∙ ap (λ (g : Agent S C). ok g.store) same_last,
        sym (ap (λ (p : Result RevListResult × Agent S C). count p.0) h3),
      )
    where
      count : Result RevListResult → Option ℕ
      count (ok r) = r.revoked_count
      count (err e) = none

  pub revoke_all-ok :
      (meta : RevregMeta) (rev_reg_id : Bytes) (curr_list : RevList) (revoked : List ℕ)
      (agent agent' : Agent S C) (result : RevListResult)
      → revoke_all b meta rev_reg_id curr_list revoked agent ≡ (ok result, agent')
      → ((translate b agent.store rev_reg_id revoked).0 ≡ [])
        × (publish b meta rev_reg_id curr_list
              ((translate b agent.store rev_reg_id revoked).1)
              agent
            ≡ (ok result, agent'))
  unfolding revoke_all
  revoke_all-ok meta rev_reg_id curr_list revoked agent agent' result h =
      split (translate b agent.store rev_reg_id revoked) h
    where
      reached :
          (r : Result (Unit {0})) (f : Unit {0} → Exec (Agent S C) RevListResult)
          → continue (r, agent) f ≡ (ok result, agent')
          → f tt agent ≡ (ok result, agent')
      reached (ok u) f e = e
      reached (err x) f e = absurd (err_ne_ok (ap (λ p. p.0) e))

      split :
          (found : List ℕ × List Bytes)
          → answered meta rev_reg_id curr_list found agent ≡ (ok result, agent')
          → (found.0 ≡ [])
            × (publish b meta rev_reg_id curr_list found.1 agent ≡ (ok result, agent'))
      split ([], cred_ids) e = (
        refl,
        reached b.registries.connected (λ _. publish b meta rev_reg_id curr_list cred_ids) e,
      )
      split (m ∷ missing, cred_ids) e = absurd (err_ne_ok (ap (λ p. p.0) e))
