-- ===== src/Zk/Issuer/Invariant/Methods.antt =====
-- Each method keeps every cached set canonical.
use Prim.Native.Nat.{max}
use aca_py_did_kanon.Prelude.{
  Result-cases, ◌≡◌, refl, sym, ◌∙◌, none, some, List, [], ◌∷◌, Bool-cases, inl, inr, Bytes,
  bytes_eq, Result, ok, err, map,
}
use aca_py_did_kanon.Prelude.Dict.{get-pop}
use aca_py_did_kanon.Prelude.Hex.{to_hex}
use aca_py_did_kanon.Web3.{Web3}
use aca_py_did_kanon.Storage.{Storage}
use aca_py_did_kanon.Contracts.Convert.{BytesLike, raw}
use aca_py_did_kanon.Contracts.MerkleState.{Receipt, BatchUpdate, batch_update}
use aca_py_did_kanon.Zk.Poseidon.{Constants}
use aca_py_did_kanon.Zk.Leaf.{cred_def_id_bytes}
use aca_py_did_kanon.Zk.Issuer.State.{IssuerState, Checkpoint}
use aca_py_did_kanon.Zk.Issuer.Canonical.{IsCanonical}
use aca_py_did_kanon.Zk.Issuer.Sync.{Chain}
use aca_py_did_kanon.Zk.Issuer.Loops.{Credential, add_leaves, drop_leaves}
use aca_py_did_kanon.Zk.Issuer.Retry.{ensure_initialized-cache}
use aca_py_did_kanon.Zk.Issuer.Roots.{compute_keccak_root, compute_poseidon_root}
use aca_py_did_kanon.Zk.Issuer.Methods.{
  World, set_state, get_or_init, ensure_initialized, settle, finish_added, publish_added,
  add_to_state, add_issued, publish_revoked, revoke_in_state, revoke, get_checkpoint, invalidate,
}
use aca_py_did_kanon.Zk.Issuer.Invariant.{
  CacheIsCanonical, IsGood, add_leaves-IsCanonical, drop_leaves-IsCanonical,
  set_state-CacheIsCanonical, cache-CacheIsCanonical, save_checkpoint-CacheIsCanonical,
  get_or_init-IsGood,
}

module _ {S : Type 0} (st : Storage Checkpoint S) (chain : Chain) (w : Web3) (k : Constants) where
  settle-CacheIsCanonical :
      (cd : Bytes) (state : IssuerState) (receipt : Receipt) (world : World S)
      → IsCanonical state.active
      → CacheIsCanonical world
      → CacheIsCanonical ((settle st chain cd state receipt world).1)
  unfolding settle
  settle-CacheIsCanonical cd state receipt world c all =
      let settled : IssuerState = record state {
        last_synced_block = max state.last_synced_block receipt.block_number;
      } in
      save_checkpoint-CacheIsCanonical st chain w k cd settled (set_state (to_hex cd) settled world)
        (set_state-CacheIsCanonical (to_hex cd) settled world c all)

  finish_added-CacheIsCanonical :
      (cd : Bytes) (state : IssuerState) (r : Result Receipt) (world : World S)
      → IsCanonical state.active
      → CacheIsCanonical world
      → CacheIsCanonical ((finish_added st chain cd state state r world).1)
  unfolding finish_added
  finish_added-CacheIsCanonical cd state (ok receipt) world c all =
      settle-CacheIsCanonical cd state receipt world c all
  finish_added-CacheIsCanonical cd state (err e) world c all =
      set_state-CacheIsCanonical (to_hex cd) state world c all

  publish_added-CacheIsCanonical :
      (cd : Bytes) (state : IssuerState) (leaves : List Bytes × List Bytes) (world : World S)
      → IsCanonical state.active
      → CacheIsCanonical world
      → CacheIsCanonical ((publish_added st chain w k cd state leaves world).1)
  unfolding publish_added
  publish_added-CacheIsCanonical cd state ([], ps) world c all = all
  publish_added-CacheIsCanonical cd state (leaf ∷ ks, ps) world c all =
      elim (Result-cases (compute_keccak_root w state)) [
        | inr (e, eq) ↦ rw (eq, publish_added) all
        | inl (root_k, ek) ↦ elim (Result-cases (compute_poseidon_root k state)) [
          | inr (e, eq) ↦ rw (ek, eq, publish_added) all
          | inl (root_p, ep) ↦
              rw (ek, ep, publish_added) (finish_added-CacheIsCanonical cd state _ world c all)
        ]
      ]

  add_to_state-CacheIsCanonical :
      (cd : Bytes) (creds : List Credential) (state : IssuerState) (world : World S)
      → IsCanonical state.active
      → CacheIsCanonical world
      → CacheIsCanonical ((add_to_state st chain w k cd creds state world).1)
  unfolding add_to_state
  add_to_state-CacheIsCanonical cd creds state world c all =
      let active = (add_leaves w k cd creds state.active [] []).1 in
      let state' : IssuerState = record state { active = active } in
      let c' : IsCanonical active = add_leaves-IsCanonical w k cd creds state.active [] [] c in
      let all' = set_state-CacheIsCanonical (to_hex cd) state' world c' all in
      elim (Result-cases ((add_leaves w k cd creds state.active [] []).0)) [
        | inr (e, eq) ↦ rw (eq, add_to_state) all'
        | inl (leaves, eq) ↦
            rw (eq, add_to_state)
              (publish_added-CacheIsCanonical cd state' leaves (set_state (to_hex cd) state' world)
                c' all')
      ]

  publish_revoked-CacheIsCanonical :
      (cd : Bytes) (state : IssuerState) (leaves : List Bytes × List Bytes) (world : World S)
      → IsCanonical state.active
      → CacheIsCanonical world
      → CacheIsCanonical ((publish_revoked st chain w k cd state leaves world).1)
  unfolding publish_revoked
  publish_revoked-CacheIsCanonical cd state (ks, ps) world c all =
      elim (Result-cases (compute_keccak_root w state)) [
        | inr (e, eq) ↦ rw (eq, publish_revoked) all
        | inl (root_k, ek) ↦ elim (Result-cases (compute_poseidon_root k state)) [
          | inr (e, eq) ↦ rw (ek, eq, publish_revoked) all
          | inl (root_p, ep) ↦
              let call : BatchUpdate BytesLike = record {
                cred_def_id = raw cd;
                added_keccak = [];
                added_poseidon = [];
                revoked_keccak = map raw ks;
                revoked_poseidon = map raw ps;
                new_root_keccak = raw root_k;
                new_root_poseidon = raw root_p;
              } in
              elim (Result-cases (batch_update chain.has_key chain.send call)) [
                | inr (e, eq) ↦ rw (ek, ep, eq, publish_revoked) all
                | inl (receipt, er) ↦
                    rw (ek, ep, er, publish_revoked)
                      (settle-CacheIsCanonical cd state receipt world c all)
              ]
        ]
      ]

  revoke_in_state-CacheIsCanonical :
      (cd : Bytes) (cids : List Bytes) (state : IssuerState) (world : World S)
      → IsCanonical state.active
      → CacheIsCanonical world
      → CacheIsCanonical ((revoke_in_state st chain w k cd cids state world).1)
  unfolding revoke_in_state
  revoke_in_state-CacheIsCanonical cd cids state world c all =
      let active = (drop_leaves w cids state.active [] []).1 in
      let state' : IssuerState = record state { active = active } in
      let c' : IsCanonical active = drop_leaves-IsCanonical w cids state.active [] [] c in
      let all' = set_state-CacheIsCanonical (to_hex cd) state' world c' all in
      elim (Result-cases ((drop_leaves w cids state.active [] []).0)) [
        | inr (e, eq) ↦ rw (eq, revoke_in_state) all'
        | inl (leaves, eq) ↦
            rw (eq, revoke_in_state)
              (publish_revoked-CacheIsCanonical cd state' leaves
                (set_state (to_hex cd) state' world) c' all')
      ]

  add_issued-CacheIsCanonical :
      (cred_def_id : BytesLike) (creds : List Credential) (world : World S)
      → CacheIsCanonical world
      → CacheIsCanonical ((add_issued st chain w k cred_def_id creds world).1)
  unfolding add_issued
  add_issued-CacheIsCanonical cred_def_id [] world all = all
  add_issued-CacheIsCanonical cred_def_id (c ∷ creds) world all =
      elim (Result-cases (cred_def_id_bytes cred_def_id)) [
        | inr (e, eq) ↦ rw (eq, add_issued) all
        | inl (cd, eq) ↦
            after cd eq (get_or_init st chain cd world) refl
              (get_or_init-IsGood st chain w k cd world all)
      ]
    where
      after :
          (cd : Bytes)
          → cred_def_id_bytes cred_def_id ≡ ok cd
          → (r : Result IssuerState × World S) → get_or_init st chain cd world ≡ r
          → IsGood r
          → CacheIsCanonical ((add_issued st chain w k cred_def_id (c ∷ creds) world).1)
      after cd eq (err e, world0) eg good = rw (eq, eg, add_issued) good.0
      after cd eq (ok state, world0) eg good =
          let ready = ensure_initialized st chain cd world0 in
          let all' =
            cache-CacheIsCanonical ready world0 (ensure_initialized-cache st chain w k cd world0)
              good.0 in
          rw (eq, eg, add_issued)
            (add_to_state-CacheIsCanonical cd (c ∷ creds) state ready (good.1 state refl) all')

  revoke-CacheIsCanonical :
      (cred_def_id : BytesLike) (cids : List Bytes) (world : World S)
      → CacheIsCanonical world
      → CacheIsCanonical ((revoke st chain w k cred_def_id cids world).1)
  unfolding revoke
  revoke-CacheIsCanonical cred_def_id [] world all = all
  revoke-CacheIsCanonical cred_def_id (c ∷ cids) world all =
      elim (Result-cases (cred_def_id_bytes cred_def_id)) [
        | inr (e, eq) ↦ rw (eq, revoke) all
        | inl (cd, eq) ↦
            after cd eq (get_or_init st chain cd world) refl
              (get_or_init-IsGood st chain w k cd world all)
      ]
    where
      after :
          (cd : Bytes)
          → cred_def_id_bytes cred_def_id ≡ ok cd
          → (r : Result IssuerState × World S) → get_or_init st chain cd world ≡ r
          → IsGood r
          → CacheIsCanonical ((revoke st chain w k cred_def_id (c ∷ cids) world).1)
      after cd eq (err e, world0) eg good = rw (eq, eg, revoke) good.0
      after cd eq (ok state, world0) eg good =
          rw (eq, eg, revoke)
            (revoke_in_state-CacheIsCanonical cd (c ∷ cids) state world0 (good.1 state refl) good.0)

  get_checkpoint-CacheIsCanonical :
      (cred_def_id : BytesLike) (world : World S)
      → CacheIsCanonical world
      → CacheIsCanonical ((get_checkpoint st chain cred_def_id world).1)
  unfolding get_checkpoint
  get_checkpoint-CacheIsCanonical cred_def_id world all =
      elim (Result-cases (cred_def_id_bytes cred_def_id)) [
        | inr (e, eq) ↦ rw (eq, get_checkpoint) all
        | inl (cd, eq) ↦
            after cd eq (get_or_init st chain cd world) refl
              (get_or_init-IsGood st chain w k cd world all)
      ]
    where
      after :
          (cd : Bytes)
          → cred_def_id_bytes cred_def_id ≡ ok cd
          → (r : Result IssuerState × World S) → get_or_init st chain cd world ≡ r
          → IsGood r
          → CacheIsCanonical ((get_checkpoint st chain cred_def_id world).1)
      after cd eq (err e, world0) eg good = rw (eq, eg, get_checkpoint) good.0
      after cd eq (ok state, world0) eg good = rw (eq, eg, get_checkpoint) good.0

  invalidate-CacheIsCanonical :
      (cred_def_id : BytesLike) (world : World S)
      → CacheIsCanonical world
      → CacheIsCanonical ((invalidate cred_def_id world).1)
  unfolding invalidate
  invalidate-CacheIsCanonical cred_def_id world all =
      elim (Result-cases (cred_def_id_bytes cred_def_id)) [
        | inr (e, eq) ↦ rw (eq, invalidate) all
        | inl (cd, eq) ↦
            rw (eq, invalidate)
              (λ j found h. elim (Bool-cases (bytes_eq (to_hex cd) j)) [
                | inl same ↦
                    absurd
                      (none_ne_some (sym (get-pop (to_hex cd) j world.cache ∙ rw same refl) ∙ h))
                | inr other ↦
                    all j found (sym (get-pop (to_hex cd) j world.cache ∙ rw other refl) ∙ h)
              ])
      ]
    where
      none_ne_some : {s : IssuerState} → none ≡ some s → ⊥
      none_ne_some h = cc

  -- If every set in the cache has each leaf once and in lower case, so it is after each of the issuer's
  -- methods, whatever the storage and the chain answer and whether or not the method raises.
  pub methods-CacheIsCanonical :
      (cred_def_id : BytesLike) (creds : List Credential) (cids : List Bytes) (world : World S)
      → CacheIsCanonical world
      → CacheIsCanonical ((add_issued st chain w k cred_def_id creds world).1)
        × CacheIsCanonical ((revoke st chain w k cred_def_id cids world).1)
        × CacheIsCanonical ((get_checkpoint st chain cred_def_id world).1)
        × CacheIsCanonical ((invalidate cred_def_id world).1)
  methods-CacheIsCanonical cred_def_id creds cids world all = (
    add_issued-CacheIsCanonical cred_def_id creds world all,
    revoke-CacheIsCanonical cred_def_id cids world all,
    get_checkpoint-CacheIsCanonical cred_def_id world all,
    invalidate-CacheIsCanonical cred_def_id world all,
  )
