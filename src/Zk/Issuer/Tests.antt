-- ===== src/Zk/Issuer/Tests.antt =====
-- The issuer's theorems at a small world: a toy hash, a store of one record, tables of ones.
use aca_py_did_kanon.Prelude.{
  ℕ, ◌≤◌, ◌≡◌, refl, true, Option, none, some, [], ◌∷◌, map, replicate, Bytes, bytes_eq, ok, err,
  ◌>>=◌, ap, web3_error, zk_issuer_error,
}
use aca_py_did_kanon.Prelude.Hex.{
  to_hex, hex_char, from_hex, is_space, hex_digit, starts_with, lower, lower_char,
}
use aca_py_did_kanon.Prelude.Dict.{Dict, get, put, pop, keys}
use aca_py_did_kanon.Web3.Toy.{checksum, toy_digest, toy}
use aca_py_did_kanon.Storage.{Storage, StorageLaws, upsert, existing}
use aca_py_did_kanon.Contracts.Convert.{raw, text, to_bytes, to_bytes32}
use aca_py_did_kanon.Contracts.MerkleState.{
  Receipt, LeafEvent, Kind, add, to_event, get_leaf_events, scan, transported, sort_events,
}
use aca_py_did_kanon.Zk.Poseidon.Toy.{tables, tables-FitsArity_4, tables-FitsArity_16}
use aca_py_did_kanon.Zk.Attributes.{
  encode_attributes_canonical, felts_of, sort_names, kept_names, pad_attrs_to_circuit, append_zeros,
}
use aca_py_did_kanon.Zk.Leaf.{
  cred_def_id_bytes, derive_leaf, cred_bytes, strip_0x, compute_zk_leaf-IsFelt, felt_to_bytes32,
}
use aca_py_did_kanon.Zk.Issuer.State.{
  IssuerState, Checkpoint, to_dict, from_dict, replay, checkpoint_record_type, checkpoint_record_id,
}
use aca_py_did_kanon.Zk.Issuer.Sync.{Chain, replay_from_chain}
use aca_py_did_kanon.Zk.Issuer.Methods.{
  World, set_state, add_issued, revoke, get_or_init, load_and_replay, load_checkpoint,
  save_checkpoint, settle, get_checkpoint, invalidate,
}
use aca_py_did_kanon.Zk.Issuer.Again.{add_leaves-fresh}
use aca_py_did_kanon.Zk.Issuer.Retry.{add_issued_again}
use aca_py_did_kanon.Zk.Issuer.Published.{logs_of, add_leaves-eq-replay}
use aca_py_did_kanon.Zk.Issuer.Replay.{last_word, get-replay}
use aca_py_did_kanon.Zk.Issuer.Canonical.{IsCanonical, from_dict-to_dict}
use aca_py_did_kanon.Zk.Issuer.Invariant.{CacheIsCanonical, set_state-CacheIsCanonical}
use aca_py_did_kanon.Zk.Issuer.Invariant.Methods.{methods-CacheIsCanonical}
use aca_py_did_kanon.Zk.Issuer.Recovery.{kept, settle-load_checkpoint, revoke_partial}
use aca_py_did_kanon.Zk.Issuer.Loops.{Credential, add_leaves, drop_leaves, poseidon_leaf}

-- A store of one record, whatever its id.
abbrev one_record : Storage Checkpoint (Option Checkpoint)
one_record = record {
  get_record = λ s t i. ok s;
  update_record = λ s t i v. ok (some v);
  add_record = λ s t i v. ok (some v);
}

one_record-StorageLaws : StorageLaws one_record
one_record-StorageLaws = record { get-update = λ s s' t i v h. cc; get-add = λ s s' t i v h. cc }

abbrev cd : Bytes
cd = replicate 32 9

abbrev cid : Bytes
cid = to_hex (replicate 32 1)

abbrev other_cid : Bytes
other_cid = to_hex (replicate 32 2)

abbrev credential : Credential
credential = (cid, [])

abbrev receipt : Receipt
receipt = record { tx_hash = 1 ∷ []; block_number = 6; status = 1 }

-- A chain whose transactions succeed, and one where they fail.
abbrev good_chain : Chain
good_chain = record {
  has_key = true;
  tip = ok 5;
  latest_block = ok 5;
  added = λ c from_block to_block. ok [];
  revoked = λ c from_block to_block. ok [];
  initialize = λ call. ok receipt;
  send = λ call. ok receipt;
}

abbrev bad_chain : Chain
bad_chain = record good_chain { send = λ call. err web3_error }

abbrev new_world : World (Option Checkpoint)
new_world = record { cache = []; chain_initialized = []; store = none }

abbrev leaf_of : Bytes → Bytes
leaf_of b = toy_digest (toy_digest b)

abbrev entry_k : Bytes
entry_k = to_hex (leaf_of (replicate 32 1))

abbrev state_of_one : IssuerState
state_of_one = record { active = (entry_k, to_hex (replicate 32 3)) ∷ []; last_synced_block = 4 }

abbrev world_of_one : World (Option Checkpoint)
world_of_one = record {
  cache = (to_hex cd, state_of_one) ∷ [];
  chain_initialized = [];
  store = none;
}

companion : (p : Bytes) × (poseidon_leaf toy tables cd cid [] ≡ ok p)
unfolding poseidon_leaf encode_attributes_canonical felts_of sort_names kept_names keys
    pad_attrs_to_circuit append_zeros
companion =
    let (x, e, f) =
      compute_zk_leaf-IsFelt tables cd (toy_digest cid) (replicate 16 0) tables-FitsArity_4
        tables-FitsArity_16 refl refl refl in
    (felt_to_bytes32 x, ap (λ r. r >>= λ y. ok (felt_to_bytes32 y)) e)

leaf_found : derive_leaf toy (text cid) ≡ ok (leaf_of (replicate 32 1))
unfolding derive_leaf cred_bytes strip_0x starts_with lower lower_char to_hex hex_char from_hex
    is_space hex_digit checksum
leaf_found = refl

abbrev one_leaf : Bytes
one_leaf = leaf_of (replicate 32 1)

adds_one :
    add_leaves toy tables cd (credential ∷ []) [] [] []
    ≡ (ok (one_leaf ∷ [], companion.0 ∷ []), (to_hex one_leaf, to_hex companion.0) ∷ [])
unfolding add_leaves get put
adds_one =
    add_leaves-fresh toy tables cd credential [] [] [] [] one_leaf companion.0 leaf_found refl
      companion.1

cd_read : cred_def_id_bytes (raw cd) ≡ ok cd
unfolding cred_def_id_bytes
cd_read = refl

abbrev synced : IssuerState
synced = record { active = []; last_synced_block = 5 }

abbrev loaded : World (Option Checkpoint)
loaded = (get_or_init one_record bad_chain cd new_world).1

loads : get_or_init one_record bad_chain cd new_world ≡ (ok synced, loaded)
unfolding get_or_init load_and_replay load_checkpoint replay_from_chain get_leaf_events scan
    transported to_bytes32 to_bytes sort_events replay save_checkpoint upsert existing get
loads = refl

-- The first call fails to publish; the second then returns None.
add_issued_again_example :
    (add_issued one_record good_chain toy tables
      (raw cd)
      (credential ∷ [])
      ((add_issued one_record bad_chain toy tables (raw cd) (credential ∷ []) new_world).1)).0
    ≡ ok none
add_issued_again_example =
    add_issued_again one_record bad_chain good_chain toy tables (raw cd) cd credential [] new_world
      loaded synced (one_leaf ∷ [], companion.0 ∷ []) cd_read loads (ap (λ r. r.0) adds_one)

add_leaves-eq-replay_example :
    replay [] (map (to_event add) (logs_of 6 0 (one_leaf ∷ []) (companion.0 ∷ [])))
    ≡ (to_hex one_leaf, to_hex companion.0) ∷ []
add_leaves-eq-replay_example =
    add_leaves-eq-replay toy tables cd 6 (credential ∷ []) []
      ((to_hex one_leaf, to_hex companion.0) ∷ []) (one_leaf ∷ []) (companion.0 ∷ []) adds_one

drops_one :
    drop_leaves toy (cid ∷ []) state_of_one.active [] []
    ≡ (ok (one_leaf ∷ [], replicate 32 3 ∷ []), [])
unfolding drop_leaves derive_leaf cred_bytes strip_0x starts_with lower lower_char to_hex hex_char
    from_hex is_space hex_digit checksum get pop bytes_eq
drops_one = refl

abbrev event_of : Kind → ℕ → LeafEvent
event_of kind i =
    to_event kind
      (record { block = 3; log_index = i; leaf_keccak = one_leaf; leaf_poseidon = replicate 32 3 })

get-replay_example :
    get entry_k (replay [] (event_of add 0 ∷ event_of Kind.revoke 1 ∷ []))
    ≡ last_word entry_k (event_of add 0 ∷ event_of Kind.revoke 1 ∷ []) (get entry_k [])
get-replay_example = get-replay entry_k (event_of add 0 ∷ event_of Kind.revoke 1 ∷ []) []

state_of_one-IsCanonical : IsCanonical state_of_one.active
unfolding lower lower_char to_hex hex_char get checksum
state_of_one-IsCanonical = (refl, refl, refl, tt)

from_dict-to_dict_example : from_dict (to_dict state_of_one) ≡ ok state_of_one
from_dict-to_dict_example = from_dict-to_dict state_of_one state_of_one-IsCanonical

world_of_one-CacheIsCanonical : CacheIsCanonical world_of_one
unfolding get put
world_of_one-CacheIsCanonical =
    set_state-CacheIsCanonical (to_hex cd) state_of_one new_world state_of_one-IsCanonical
      (λ key state h. absurd (none_ne_some h))
  where
    none_ne_some : {s : IssuerState} → none ≡ some s → ⊥
    none_ne_some h = cc

methods-CacheIsCanonical_example :
    CacheIsCanonical
      ((add_issued one_record bad_chain toy tables (raw cd) (credential ∷ []) world_of_one).1)
    × CacheIsCanonical ((revoke one_record bad_chain toy tables (raw cd) (cid ∷ []) world_of_one).1)
    × CacheIsCanonical ((get_checkpoint one_record bad_chain (raw cd) world_of_one).1)
    × CacheIsCanonical ((invalidate (raw cd) world_of_one).1)
methods-CacheIsCanonical_example =
    methods-CacheIsCanonical one_record bad_chain toy tables (raw cd) (credential ∷ []) (cid ∷ [])
      world_of_one world_of_one-CacheIsCanonical

abbrev settled_of_one : IssuerState
settled_of_one = record state_of_one { last_synced_block = 6 }

stored :
    upsert one_record none checkpoint_record_type (checkpoint_record_id cd) (to_dict settled_of_one)
    ≡ ok (some (to_dict settled_of_one))
unfolding upsert existing
stored = refl

settle-load_checkpoint_example :
    (settled : IssuerState) × (get
        (to_hex cd)
        ((settle one_record good_chain cd state_of_one receipt world_of_one).1).cache
      ≡ some settled)
    × (load_checkpoint one_record cd
          (record ((settle one_record good_chain cd state_of_one receipt world_of_one).1) {
            cache = [];
          })
        ≡ settled)
    × (settled.active ≡ state_of_one.active)
    × (6 ≤ settled.last_synced_block)
settle-load_checkpoint_example =
    settle-load_checkpoint one_record good_chain cd state_of_one receipt world_of_one
      (some (to_dict settled_of_one)) [] one_record-StorageLaws state_of_one-IsCanonical stored

cached_one : get_or_init one_record good_chain cd world_of_one ≡ (ok state_of_one, world_of_one)
unfolding get_or_init get bytes_eq to_hex hex_char
cached_one = refl

other_found : derive_leaf toy (text other_cid) ≡ ok (leaf_of (replicate 32 2))
unfolding derive_leaf cred_bytes strip_0x starts_with lower lower_char to_hex hex_char from_hex
    is_space hex_digit checksum
other_found = refl

other_absent : kept (one_leaf ∷ []) state_of_one.active (to_hex (leaf_of (replicate 32 2))) ≡ none
unfolding to_hex hex_char get bytes_eq checksum
other_absent = refl

revoke_partial_example :
    (active : Dict Bytes) × (revoke one_record good_chain toy tables
        (raw cd)
        (cid ∷ other_cid ∷ [])
        world_of_one
      ≡ (
        err zk_issuer_error,
        set_state (to_hex cd) (record state_of_one { active = active }) world_of_one,
      ))
    × (map (λ c. derive_leaf toy (text c)) (cid ∷ []) ≡ map ok (one_leaf ∷ []))
    × ((key : Bytes) → get key active ≡ kept (one_leaf ∷ []) state_of_one.active key)
revoke_partial_example =
    revoke_partial one_record good_chain toy tables (raw cd) cd other_cid (cid ∷ []) [] world_of_one
      world_of_one state_of_one (one_leaf ∷ [], replicate 32 3 ∷ []) (leaf_of (replicate 32 2))
      cd_read cached_one (ap (λ r. r.0) drops_one) other_found other_absent
