-- ===== src/Zk/Issuer/Sync.antt =====
-- What the issuer asks of the chain, and `_replay_from_chain`.
use aca_py_did_kanon.Prelude.{ℕ, Bool, none, List, Bytes, Result, ok, ◌>>=◌}
use aca_py_did_kanon.Contracts.Convert.{raw}
use aca_py_did_kanon.Contracts.MerkleState.{BatchUpdate, Receipt, Log, get_leaf_events}
use aca_py_did_kanon.Zk.Issuer.State.{IssuerState, replay}

-- What the chain answers during one call.
pub record Chain : Type 0 where
  pub has_key : Bool
  -- `eth.block_number`, as the scan reads it, and as it is read after the scan.
  pub tip : Result ℕ
  pub latest_block : Result ℕ
  pub added : Bytes → ℕ → ℕ → Result (List Log)
  pub revoked : Bytes → ℕ → ℕ → Result (List Log)
  pub initialize : Bytes × Bytes × Bytes → Result Receipt
  pub send : BatchUpdate Bytes → Result Receipt

unfoldable pub replay_from_chain : Chain → Bytes → IssuerState → Result IssuerState
replay_from_chain chain cd state = do
  events ← get_leaf_events chain.tip chain.added chain.revoked (raw cd) state.last_synced_block none
  latest ← chain.latest_block
  ok (record { active = replay state.active events; last_synced_block = latest })
