-- ===== src/Zk/Issuer/State.antt =====
-- `KanonZkIssuerState`: the active leaves, `keccak` hex to `poseidon` hex, and the sync watermark.
use aca_py_did_kanon.Prelude.{
  ℕ, not, List, [], ◌∷◌, ◌++◌, ◌==◌, length, Bytes, Result, ok, value_error, ◌>>◌, raise_if,
}
use aca_py_did_kanon.Prelude.Dict.{Dict, put, pop, keys, values}
use aca_py_did_kanon.Prelude.Hex.{codes, lower, to_hex}
use aca_py_did_kanon.Contracts.MerkleState.{LeafEvent, add, revoke}

pub record IssuerState : Type 0 where
  pub active : Dict Bytes
  pub last_synced_block : ℕ

abbrev pub fresh : IssuerState
fresh = record { active = []; last_synced_block = 0 }

-- The JSON object of a checkpoint.
pub record Checkpoint : Type 0 where
  pub last_synced_block : ℕ
  pub keccak : List Bytes
  pub poseidon : List Bytes

abbrev pub checkpoint_record_type : Bytes
checkpoint_record_type = codes "kanon/zk/sync-checkpoint"

unfoldable pub checkpoint_record_id : Bytes → Bytes
checkpoint_record_id cd = codes "kanon-zk-sync:" ++ to_hex cd

unfoldable pub to_dict : IssuerState → Checkpoint
to_dict st = record {
  last_synced_block = st.last_synced_block;
  keccak = keys st.active;
  poseidon = values st.active;
}

-- `{k.lower(): p.lower() for k, p in zip(ks, ps)}`, after the entries of `d`.
unfoldable pub zip_lower : List Bytes → List Bytes → Dict Bytes → Dict Bytes
zip_lower [] ps d = d
zip_lower (k ∷ ks) [] d = d
zip_lower (k ∷ ks) (p ∷ ps) d = zip_lower ks ps (put (lower k) (lower p) d)

unfoldable pub from_dict : Checkpoint → Result IssuerState
from_dict c = do
  raise_if (not (length c.keccak == length c.poseidon)) value_error
  ok (record { active = zip_lower c.keccak c.poseidon []; last_synced_block = c.last_synced_block })

-- One round of the loop of `_replay_from_chain`.
unfoldable pub apply_event : Dict Bytes → LeafEvent → Dict Bytes
apply_event active ev = elim ev.kind [
  | add ↦ put (lower ev.keccak) (lower ev.poseidon) active
  | revoke ↦ pop (lower ev.keccak) active
]

unfoldable pub replay : Dict Bytes → List LeafEvent → Dict Bytes
replay active [] = active
replay active (ev ∷ events) = replay (apply_event active ev) events
