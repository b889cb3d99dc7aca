-- ===== src/Zk/Issuer/Methods.antt =====
-- The methods of `KanonZkIssuer`. The cache holds the state object that a method mutates, so every
-- change of a state is written to its cache entry.
use aca_py_did_kanon.Prelude.{
  Option, none, some, List, [], ◌∷◌, map, if◌then◌else◌, replicate, Bytes, Result, ok, err,
}
use Prim.Native.Nat.{max}
use aca_py_did_kanon.Prelude.Exec.{Exec, pure, raise, lift, gets, modify, ◌>>=◌, ◌>>◌}
use aca_py_did_kanon.Prelude.Dict.{Dict, get, put, pop}
use aca_py_did_kanon.Prelude.Hex.{to_hex}
use aca_py_did_kanon.Web3.{Web3}
use aca_py_did_kanon.Storage.{Storage, upsert}
use aca_py_did_kanon.Contracts.Convert.{BytesLike, raw}
use aca_py_did_kanon.Contracts.MerkleState.{Receipt, batch_update, initialize_cred_def_state}
use aca_py_did_kanon.Zk.Poseidon.{Constants}
use aca_py_did_kanon.Zk.Attributes.{contains}
use aca_py_did_kanon.Zk.Leaf.{cred_def_id_bytes}
use aca_py_did_kanon.Zk.Issuer.State.{
  IssuerState, fresh, Checkpoint, to_dict, from_dict, checkpoint_record_type, checkpoint_record_id,
}
use aca_py_did_kanon.Zk.Issuer.Sync.{Chain, replay_from_chain}
use aca_py_did_kanon.Zk.Issuer.Loops.{Credential, add_leaves, drop_leaves}
use aca_py_did_kanon.Zk.Issuer.Roots.{compute_keccak_root, compute_poseidon_root}

-- The fields of the issuer object, with the wallet's storage.
pub record World (S : Type 0) : Type 0 where
  pub cache : Dict IssuerState
  pub chain_initialized : List Bytes
  pub store : S

abbrev zero_root : BytesLike
zero_root = raw (replicate 32 0)

-- `state` is the cached object, so a change of it is seen in the cache.
abbrev pub set_state : {S : Type 0} → Bytes → IssuerState → World S → World S
set_state key state world = record world { cache = put key state world.cache }

module _ {S : Type 0} (st : Storage Checkpoint S) where
  unfoldable pub load_checkpoint : Bytes → World S → IssuerState
  load_checkpoint cd world =
      elim (st.get_record world.store checkpoint_record_type (checkpoint_record_id cd)) [
        | ok (some c) ↦ elim (from_dict c) [ ok state ↦ state | err e ↦ fresh ]
        | ok none ↦ fresh
        | err e ↦ fresh
      ]

  -- A failure is logged and swallowed.
  unfoldable pub save_checkpoint : Bytes → IssuerState → World S → World S
  save_checkpoint cd state world =
      elim (upsert st world.store checkpoint_record_type (checkpoint_record_id cd)
        (to_dict state)) [ ok store ↦ record world { store = store } | err e ↦ world ]

  module _ (chain : Chain) where
    unfoldable pub load_and_replay : Bytes → Exec (World S) IssuerState
    unfolding load_checkpoint save_checkpoint replay_from_chain
    load_and_replay cd = do
      stored ← gets (load_checkpoint cd)
      state ← lift (replay_from_chain chain cd stored)
      modify (save_checkpoint cd state)
      modify (set_state (to_hex cd) state)
      pure state

    -- `get_or_init`, on the 32 bytes of the credDef id.
    unfoldable pub get_or_init : Bytes → Exec (World S) IssuerState
    unfolding load_and_replay
    get_or_init cd world = elim (get (to_hex cd) world.cache) [
      | some state ↦ (ok state, world)
      | none ↦ load_and_replay cd world
    ]

    -- The lazy initialisation of the slot on chain: a failure is logged and swallowed.
    unfoldable pub ensure_initialized : Bytes → World S → World S
    ensure_initialized cd world =
        if contains world.chain_initialized (to_hex cd)
        then world
        else elim (initialize_cred_def_state chain.has_key chain.initialize (raw cd) zero_root
            zero_root) [
              | ok receipt ↦ record world {
                chain_initialized = to_hex cd ∷ world.chain_initialized;
              }
              | err e ↦ world
            ]

    -- After an accepted publication: the watermark, the checkpoint, the receipt.
    unfoldable pub settle : Bytes → IssuerState → Receipt → Exec (World S) (Option Receipt)
    unfolding save_checkpoint
    settle cd state receipt = do
      let settled = record state {
        last_synced_block = max state.last_synced_block receipt.block_number;
      }
      modify (set_state (to_hex cd) settled)
      modify (save_checkpoint cd settled)
      pure (some receipt)

    -- The `try` round `batch_update` in `add_issued`, with the snapshot for the roll-back.
    unfoldable pub finish_added :
        Bytes → IssuerState → IssuerState → Result Receipt → Exec (World S) (Option Receipt)
    unfolding settle
    finish_added cd state before (ok receipt) = settle cd state receipt
    finish_added cd state before (err e) = do modify (set_state (to_hex cd) before); raise e

    module _ (w : Web3) (k : Constants) where
      -- What follows the loop of `add_issued`. `active_before = dict(state.active)` copies the set
      -- that the loop has already changed.
      unfoldable pub publish_added :
          Bytes → IssuerState → List Bytes × List Bytes → Exec (World S) (Option Receipt)
      unfolding finish_added
      publish_added cd state ([], added_p) = pure none
      publish_added cd state (leaf ∷ added_k, added_p) = do
        let before = record state { active = state.active }
        root_k ← lift (compute_keccak_root w state)
        root_p ← lift (compute_poseidon_root k state)
        finish_added cd state before (
            batch_update chain.has_key chain.send (record {
              cred_def_id = raw cd;
              added_keccak = map raw (leaf ∷ added_k);
              added_poseidon = map raw added_p;
              revoked_keccak = [];
              revoked_poseidon = [];
              new_root_keccak = raw root_k;
              new_root_poseidon = raw root_p;
            }))

      unfoldable pub add_to_state :
          Bytes → List Credential → IssuerState → Exec (World S) (Option Receipt)
      unfolding publish_added
      add_to_state cd credentials state = do
        let (outcome, active) = add_leaves w k cd credentials state.active [] []
        let added = record state { active = active }
        modify (set_state (to_hex cd) added)
        leaves ← lift outcome
        publish_added cd added leaves

      unfoldable pub add_issued : BytesLike → List Credential → Exec (World S) (Option Receipt)
      unfolding get_or_init ensure_initialized add_to_state
      add_issued cred_def_id [] = pure none
      add_issued cred_def_id (c ∷ credentials) = do
        cd ← lift (cred_def_id_bytes cred_def_id)
        state ← get_or_init cd
        modify (ensure_initialized cd)
        add_to_state cd (c ∷ credentials) state

      unfoldable pub publish_revoked :
          Bytes → IssuerState → List Bytes × List Bytes → Exec (World S) (Option Receipt)
      unfolding settle
      publish_revoked cd state (revoked_k, revoked_p) = do
        root_k ← lift (compute_keccak_root w state)
        root_p ← lift (compute_poseidon_root k state)
        receipt ← lift (
            batch_update chain.has_key chain.send (record {
              cred_def_id = raw cd;
              added_keccak = [];
              added_poseidon = [];
              revoked_keccak = map raw revoked_k;
              revoked_poseidon = map raw revoked_p;
              new_root_keccak = raw root_k;
              new_root_poseidon = raw root_p;
            }))
        settle cd state receipt

      unfoldable pub revoke_in_state :
          Bytes → List Bytes → IssuerState → Exec (World S) (Option Receipt)
      unfolding publish_revoked
      revoke_in_state cd cred_ids state = do
        let (outcome, active) = drop_leaves w cred_ids state.active [] []
        let dropped = record state { active = active }
        modify (set_state (to_hex cd) dropped)
        leaves ← lift outcome
        publish_revoked cd dropped leaves

      unfoldable pub revoke : BytesLike → List Bytes → Exec (World S) (Option Receipt)
      unfolding get_or_init revoke_in_state
      revoke cred_def_id [] = pure none
      revoke cred_def_id (cid ∷ cred_ids) = do
        cd ← lift (cred_def_id_bytes cred_def_id)
        state ← get_or_init cd
        revoke_in_state cd (cid ∷ cred_ids) state

    unfoldable pub get_checkpoint : BytesLike → Exec (World S) Checkpoint
    unfolding get_or_init
    get_checkpoint cred_def_id = do
      cd ← lift (cred_def_id_bytes cred_def_id)
      state ← get_or_init cd
      pure (to_dict state)

unfoldable pub invalidate : {S : Type 0} → BytesLike → Exec (World S) Unit
invalidate cred_def_id = do
  cd ← lift (cred_def_id_bytes cred_def_id)
  modify (λ world. record world { cache = pop (to_hex cd) world.cache })
