-- ===== src/Zk/Issuer/Retry.antt =====
-- `add_issued` called again with the same credentials, after a success and after a failure.
use aca_py_did_kanon.Prelude.{
  Result-cases, ◌≡◌, refl, ap, ◌∙◌, none, some, List, [], ◌∷◌, arith, inl, inr, Bytes, Result, ok,
  err,
}
use Prim.Native.Nat.{max}
use aca_py_did_kanon.Prelude.Dict.{Dict, get, get-put_self}
use aca_py_did_kanon.Prelude.Hex.{to_hex}
use aca_py_did_kanon.Web3.{Web3}
use aca_py_did_kanon.Storage.{Storage, upsert}
use aca_py_did_kanon.Contracts.Convert.{BytesLike}
use aca_py_did_kanon.Contracts.MerkleState.{Receipt}
use aca_py_did_kanon.Zk.Poseidon.{Constants}
use aca_py_did_kanon.Zk.Leaf.{cred_def_id_bytes}
use aca_py_did_kanon.Zk.Issuer.State.{
  IssuerState, Checkpoint, to_dict, checkpoint_record_type, checkpoint_record_id,
}
use aca_py_did_kanon.Zk.Issuer.Sync.{Chain}
use aca_py_did_kanon.Zk.Issuer.Loops.{Credential, add_leaves}
use aca_py_did_kanon.Zk.Issuer.Again.{add_leaves_again}
use aca_py_did_kanon.Zk.Issuer.Roots.{compute_keccak_root, compute_poseidon_root}
use aca_py_did_kanon.Zk.Issuer.Methods.{
  World, set_state, save_checkpoint, get_or_init, ensure_initialized, settle, finish_added,
  publish_added, add_to_state, add_issued,
}

-- The cache has a state of the credDef, with this active set.
abbrev IsCached : {S : Type 0} → World S → Bytes → Dict Bytes → Type 0
IsCached world cd active =
    (state : IssuerState) × (get (to_hex cd) world.cache ≡ some state) × (state.active ≡ active)

module _ {S : Type 0} (st : Storage Checkpoint S) (chain : Chain) (w : Web3) (k : Constants) where
  set_state-IsCached :
      (cd : Bytes) (state : IssuerState) (world : World S)
      → IsCached (set_state (to_hex cd) state world) cd state.active
  set_state-IsCached cd state world = (state, get-put_self (to_hex cd) state world.cache, refl)

  pub save_checkpoint-cache :
      (cd : Bytes) (state : IssuerState) (world : World S)
      → (save_checkpoint st cd state world).cache ≡ world.cache
  unfolding save_checkpoint
  save_checkpoint-cache cd state world =
      elim (Result-cases
        (upsert st world.store checkpoint_record_type (checkpoint_record_id cd) (to_dict state))) [
          | inl (store, e) ↦ rw (e, save_checkpoint) refl
          | inr (e, eq) ↦ rw (eq, save_checkpoint) refl
        ]

  pub ensure_initialized-cache :
      (cd : Bytes) (world : World S) → (ensure_initialized st chain cd world).cache ≡ world.cache
  unfolding ensure_initialized
  ensure_initialized-cache cd world = ground arith

  settle-IsCached :
      (cd : Bytes) (state : IssuerState) (receipt : Receipt) (world : World S)
      → IsCached ((settle st chain cd state receipt world).1) cd state.active
  unfolding settle
  settle-IsCached cd state receipt world =
      let settled : IssuerState = record state {
        last_synced_block = max state.last_synced_block receipt.block_number;
      } in
      let kept = save_checkpoint-cache cd settled (set_state (to_hex cd) settled world) in
      (settled, ap (get (to_hex cd)) kept ∙ get-put_self (to_hex cd) settled world.cache, refl)

  finish_added-IsCached :
      (cd : Bytes) (state : IssuerState) (r : Result Receipt) (world : World S)
      → IsCached ((finish_added st chain cd state state r world).1) cd state.active
  unfolding finish_added
  finish_added-IsCached cd state (ok receipt) world = settle-IsCached cd state receipt world
  finish_added-IsCached cd state (err e) world = set_state-IsCached cd state world

  -- Whatever becomes of the publication, the cached set is the one that the loop left.
  publish_added-IsCached :
      (cd : Bytes) (state : IssuerState) (leaves : List Bytes × List Bytes) (world : World S)
      → IsCached world cd state.active
      → IsCached ((publish_added st chain w k cd state leaves world).1) cd state.active
  unfolding publish_added
  publish_added-IsCached cd state ([], ps) world c = c
  publish_added-IsCached cd state (leaf ∷ ks, ps) world c =
      elim (Result-cases (compute_keccak_root w state)) [
        | inr (e, eq) ↦ rw (eq, publish_added) c
        | inl (root_k, ek) ↦ elim (Result-cases (compute_poseidon_root k state)) [
          | inr (e, eq) ↦ rw (ek, eq, publish_added) c
          | inl (root_p, ep) ↦ rw (ek, ep, publish_added) (finish_added-IsCached cd state _ world)
        ]
      ]

  add_to_state-IsCached :
      (cd : Bytes) (creds : List Credential) (state : IssuerState) (world : World S)
      (added : List Bytes × List Bytes)
      → (add_leaves w k cd creds state.active [] []).0 ≡ ok added
      → IsCached
          ((add_to_state st chain w k cd creds state world).1)
          cd
          ((add_leaves w k cd creds state.active [] []).1)
  unfolding add_to_state
  add_to_state-IsCached cd creds state world added h =
      let active = (add_leaves w k cd creds state.active [] []).1 in
      let state' : IssuerState = record state { active = active } in
      rw (h, add_to_state)
        (publish_added-IsCached cd state' added (set_state (to_hex cd) state' world)
          (set_state-IsCached cd state' world))

  -- With a cached set on which the loop has nothing to add, no publication is made.
  add_issued_nop :
      (cred_def_id : BytesLike) (cd : Bytes) (c : Credential) (creds : List Credential)
      (active : Dict Bytes) (world : World S)
      → cred_def_id_bytes cred_def_id ≡ ok cd
      → IsCached world cd active
      → add_leaves w k cd (c ∷ creds) active [] [] ≡ (ok ([], []), active)
      → (add_issued st chain w k cred_def_id (c ∷ creds) world).0 ≡ ok none
  unfolding add_issued get_or_init add_to_state publish_added
  add_issued_nop cred_def_id cd c creds active world hid (state, cached, same) nop =
      rw (hid, cached, add_issued, get_or_init, same, nop, add_to_state, publish_added) refl

-- Call `add_issued` with credentials, whatever the chain answers, where the loop over them
-- completes. A second call with the same credentials, whatever the chain answers then, returns None:
-- it publishes nothing, whether the first call published its batch or raised.
pub add_issued_again :
    {S : Type 0} (st : Storage Checkpoint S) (chain chain' : Chain) (w : Web3) (k : Constants)
    (cred_def_id : BytesLike) (cd : Bytes) (c : Credential) (creds : List Credential)
    (world world0 : World S) (state : IssuerState) (added : List Bytes × List Bytes)
    → cred_def_id_bytes cred_def_id ≡ ok cd
    → get_or_init st chain cd world ≡ (ok state, world0)
    → (add_leaves w k cd (c ∷ creds) state.active [] []).0 ≡ ok added
    → (add_issued st chain' w k cred_def_id
        (c ∷ creds)
        ((add_issued st chain w k cred_def_id (c ∷ creds) world).1)).0
      ≡ ok none
unfolding add_issued
add_issued_again st chain chain' w k cred_def_id cd c creds world world0 state added hid hget h =
    let first : add_issued st chain w k cred_def_id (c ∷ creds) world
        ≡ add_to_state st chain w k cd (c ∷ creds) state (ensure_initialized st chain cd world0) =
      rw (hid, hget, add_issued) refl in
    let cached =
      add_to_state-IsCached st chain w k cd (c ∷ creds) state
        (ensure_initialized st chain cd world0) added h in
    rw first (
      add_issued_nop st chain' w k cred_def_id cd c creds _ _ hid cached
        (add_leaves_again w k cd (c ∷ creds) state.active added h))
