-- ===== src/Contracts/MerkleState/Tests.antt =====
-- A scan of two entries, out of order.
use aca_py_did_kanon.Prelude.{◌≡◌, refl, ℕ, true, List, [], ◌∷◌, replicate, Bytes, Result, ok}
use aca_py_did_kanon.Contracts.Convert.{BytesLike, raw, to_bytes, to_bytes32, to_bytes32_all}
use aca_py_did_kanon.Contracts.MerkleState.{Log, Receipt, BatchUpdate, batch_update, batch_sent}
use aca_py_did_kanon.Contracts.MerkleState.Batch.{Carries, IsSendable, batch_update-sends}

abbrev later : Log
later = record { block = 7; log_index = 1; leaf_keccak = 1 ∷ []; leaf_poseidon = 2 ∷ [] }

abbrev earlier : Log
earlier = record { block = 6; log_index = 0; leaf_keccak = 1 ∷ []; leaf_poseidon = 2 ∷ [] }

abbrev answers : List Log → Bytes → ℕ → ℕ → Result (List Log)
answers logs cd from_block tip = ok logs

id_read : to_bytes32 (raw (replicate 32 9)) ≡ ok (replicate 32 9)
unfolding to_bytes32 to_bytes
id_read = refl

abbrev receipt : Receipt
receipt = record { tx_hash = 1 ∷ []; block_number = 6; status = 1 }

abbrev one_added : BatchUpdate BytesLike
one_added = record {
  cred_def_id = raw (replicate 32 9);
  added_keccak = raw (replicate 32 1) ∷ [];
  added_poseidon = raw (replicate 32 2) ∷ [];
  revoked_keccak = [];
  revoked_poseidon = [];
  new_root_keccak = raw (replicate 32 3);
  new_root_poseidon = raw (replicate 32 4);
}

abbrev accept : BatchUpdate Bytes → Result Receipt
accept call = ok receipt

sends_one : batch_update true accept one_added ≡ ok receipt
unfolding batch_update to_bytes32_all to_bytes32 to_bytes batch_sent
sends_one = refl

batch_update-sends_example :
    (true ≡ true)
    × (sent : BatchUpdate Bytes) × (accept sent ≡ ok receipt)
    × Carries one_added sent
    × IsSendable sent
batch_update-sends_example = batch_update-sends true accept one_added receipt sends_one
