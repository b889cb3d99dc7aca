-- ===== src/Zk/Issuer/Synced/Tests.antt =====
-- A credential that is issued in block 3 and revoked in block 5.
use aca_py_did_kanon.Prelude.{ℕ, ◌≡◌, refl, true, arith, [], ◌∷◌, replicate, Bytes, ok, ◌>>=◌}
use aca_py_did_kanon.Prelude.Dict.{get}
use aca_py_did_kanon.Contracts.MerkleState.{Receipt, Log}
use aca_py_did_kanon.Zk.Issuer.State.{IssuerState, fresh}
use aca_py_did_kanon.Zk.Issuer.Sync.{Chain, replay_from_chain}
use aca_py_did_kanon.Zk.Issuer.History.{History, scanning}
use aca_py_did_kanon.Zk.Issuer.Synced.{sync_all, sync_all-eq-once, gapless, skipped_blocks}

abbrev cd : Bytes
cd = replicate 32 9

abbrev receipt : Receipt
receipt = record { tx_hash = 1 ∷ []; block_number = 6; status = 1 }

abbrev silent : Chain
silent = record {
  has_key = true;
  tip = ok 0;
  latest_block = ok 0;
  added = λ c from_block to_block. ok [];
  revoked = λ c from_block to_block. ok [];
  initialize = λ call. ok receipt;
  send = λ call. ok receipt;
}

abbrev log : ℕ → Log
log block = record {
  block = block;
  log_index = 0;
  leaf_keccak = replicate 32 1;
  leaf_poseidon = replicate 32 2;
}

abbrev issued_and_revoked : History
issued_and_revoked = record { added = log 3 ∷ []; revoked = log 5 ∷ [] }

sync_all-eq-once_example :
    (s : IssuerState) × (once : IssuerState) × (sync_all silent issued_and_revoked cd
        (3 ∷ 3 ∷ 5 ∷ [])
        fresh
      ≡ ok s)
    × (replay_from_chain (scanning silent issued_and_revoked 5 5) cd fresh ≡ ok once)
    × (s.last_synced_block ≡ once.last_synced_block)
    × ((k : Bytes) → get k s.active ≡ get k once.active)
sync_all-eq-once_example =
    sync_all-eq-once silent issued_and_revoked cd 3 (3 ∷ 5 ∷ []) refl (omega arith)

-- The scan up to block 4 is followed by a reading of 6: the revocation in block 5 is not seen.
skipped_blocks_example :
    (replay_from_chain (scanning silent issued_and_revoked 4 6) cd fresh
      >>= replay_from_chain (scanning silent issued_and_revoked 7 7) cd)
    ≡ (replay_from_chain (scanning silent (gapless 4 6 issued_and_revoked) 4 6) cd fresh
        >>= replay_from_chain (scanning silent (gapless 4 6 issued_and_revoked) 7 7) cd)
skipped_blocks_example = skipped_blocks silent issued_and_revoked cd 4 6 7 7 fresh refl
