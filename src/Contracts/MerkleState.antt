-- ===== src/Contracts/MerkleState.antt =====
-- contracts/merkle_state.py: the client of the Merkle state registry. A transaction (`_build_send` and
-- what web3 does with it) is the argument `send`, a contract's view the argument `view`.
pub mod Events
pub mod Reads
pub mod Batch
mod Tests
use aca_py_did_kanon.Prelude.{
  ℕ, ◌≡◌, refl, ap, Bool, true, false, not, ◌||◌, ◌&&◌, ltb, if◌then◌else◌, ◌++◌, map, Option, none,
  some, List, [], ◌∷◌, arith, ◌==◌, length, Bytes, Error, Result, ok, err, merkle_error,
  contract_logic, already_initialized, web3_error, value_error, os_error, ◌>>=◌, ◌>>◌, raise_if,
}
use aca_py_did_kanon.Contracts.Convert.{BytesLike, to_bytes, to_bytes32, to_bytes32_all}
use aca_py_did_kanon.Prelude.Hex.{to_hex}

-- The dict that a write returns.
pub record Receipt : Type 0 where
  pub tx_hash : Bytes
  pub block_number : ℕ
  pub status : ℕ

-- The arguments of `batch_update`.
pub record BatchUpdate {ℓ} (B : Type ℓ) : Type ℓ where
  pub cred_def_id : B
  pub added_keccak : List B
  pub added_poseidon : List B
  pub revoked_keccak : List B
  pub revoked_poseidon : List B
  pub new_root_keccak : B
  pub new_root_poseidon : B

-- The `except` clauses round the transaction of `batchUpdate`.
unfoldable pub batch_failure : Error → Error
batch_failure contract_logic = merkle_error
batch_failure already_initialized = merkle_error
batch_failure web3_error = merkle_error
batch_failure value_error = merkle_error
batch_failure os_error = merkle_error
batch_failure e = e

unfoldable pub batch_sent : Result Receipt → Result Receipt
unfolding batch_failure
batch_sent (ok receipt) = ok receipt
batch_sent (err e) = err (batch_failure e)

-- `has_key` says whether an operator key is configured.
unfoldable pub batch_update :
    Bool → (BatchUpdate Bytes → Result Receipt) → BatchUpdate BytesLike → Result Receipt
unfolding batch_sent
batch_update has_key send call = do
  raise_if (not has_key) merkle_error
  raise_if (not (length call.added_keccak == length call.added_poseidon)) merkle_error
  raise_if (not (length call.revoked_keccak == length call.revoked_poseidon)) merkle_error
  cd ← to_bytes32 call.cred_def_id
  added_k ← to_bytes32_all call.added_keccak
  added_p ← to_bytes32_all call.added_poseidon
  revoked_k ← to_bytes32_all call.revoked_keccak
  revoked_p ← to_bytes32_all call.revoked_poseidon
  rk ← to_bytes32 call.new_root_keccak
  rp ← to_bytes32 call.new_root_poseidon
  batch_sent (
      send (record {
        cred_def_id = cd;
        added_keccak = added_k;
        added_poseidon = added_p;
        revoked_keccak = revoked_k;
        revoked_poseidon = revoked_p;
        new_root_keccak = rk;
        new_root_poseidon = rp;
      }))

-- `initialize_cred_def_state`: a slot that is there already is no error. `already_initialized` is
-- a web3 exception whose text says so.
unfoldable pub initialize_sent : Result Receipt → Result (Option Receipt)
initialize_sent (ok receipt) = ok (some receipt)
initialize_sent (err already_initialized) = ok none
initialize_sent (err contract_logic) = err merkle_error
initialize_sent (err web3_error) = err merkle_error
initialize_sent (err value_error) = err merkle_error
initialize_sent (err os_error) = err merkle_error
initialize_sent (err e) = err e

unfoldable pub initialize_cred_def_state :
    Bool
    → (Bytes × Bytes × Bytes → Result Receipt)
    → BytesLike
    → BytesLike
    → BytesLike
    → Result (Option Receipt)
unfolding initialize_sent
initialize_cred_def_state has_key send cred_def_id root_keccak root_poseidon = do
  raise_if (not has_key) merkle_error
  cd ← to_bytes32 cred_def_id
  rk ← to_bytes32 root_keccak
  rp ← to_bytes32 root_poseidon
  initialize_sent (send (cd, rk, rp))

-- An entry of the scan of `CredentialAdded` or `CredentialRevoked`.
pub record Log : Type 0 where
  pub block : ℕ
  pub log_index : ℕ
  pub leaf_keccak : Bytes
  pub leaf_poseidon : Bytes

pub data Kind : Type 0 where
  add : Kind
  revoke : Kind

-- The dict of an event, its leaves in hex.
pub record LeafEvent : Type 0 where
  pub block : ℕ
  pub log_index : ℕ
  pub kind : Kind
  pub keccak : Bytes
  pub poseidon : Bytes

unfoldable pub to_event : Kind → Log → LeafEvent
to_event kind log = record {
  block = log.block;
  log_index = log.log_index;
  kind = kind;
  keccak = to_hex log.leaf_keccak;
  poseidon = to_hex log.leaf_poseidon;
}

-- `(e["block"], e["log_index"])` of one event before that of the other.
unfoldable pub is_before : LeafEvent → LeafEvent → Bool
is_before e f = ltb e.block f.block || (e.block == f.block && ltb e.log_index f.log_index)

-- `events.sort`, which is stable.
unfoldable pub insert_event : LeafEvent → List LeafEvent → List LeafEvent
insert_event e [] = e ∷ []
insert_event e (f ∷ events) =
    let rest = insert_event e events in if is_before f e then f ∷ rest else e ∷ f ∷ events

unfoldable pub sort_events : List LeafEvent → List LeafEvent
sort_events [] = []
sort_events (e ∷ events) = insert_event e (sort_events events)

-- The `except` clause of the reads that no revert reaches.
unfoldable pub transport_error : Error → Error
transport_error contract_logic = merkle_error
transport_error already_initialized = merkle_error
transport_error web3_error = merkle_error
transport_error value_error = merkle_error
transport_error os_error = merkle_error
transport_error e = e

unfoldable pub transported {ℓ} : {A : Type ℓ} → Result A → Result A
transported (ok a) = ok a
transported (err e) = err (transport_error e)

-- `_scan`: the two filters, from the first block to the tip.
unfoldable pub scan :
    (Bytes → ℕ → ℕ → Result (List Log))
    → (Bytes → ℕ → ℕ → Result (List Log))
    → Bytes
    → ℕ
    → ℕ
    → Result (List LeafEvent)
unfolding sort_events to_event
scan added revoked cd from_block tip = do
  a ← added cd from_block tip
  r ← revoked cd from_block tip
  ok (sort_events (map (to_event add) a ++ map (to_event revoke) r))

unfoldable pub get_leaf_events :
    Result ℕ
    → (Bytes → ℕ → ℕ → Result (List Log))
    → (Bytes → ℕ → ℕ → Result (List Log))
    → BytesLike
    → ℕ
    → Option ℕ
    → Result (List LeafEvent)
unfolding scan transported
get_leaf_events block_number added revoked cred_def_id from_block to_block = do
  cd ← to_bytes32 cred_def_id
  tip ← elim to_block [ some t ↦ ok t | none ↦ block_number ]
  transported (scan added revoked cd from_block tip)
