-- ===== src/Contracts/StatusRegistry/Tests.antt =====
-- A status that was read, and a write.
use aca_py_did_kanon.Prelude.{ℕ, ◌≡◌, refl, none, [], ◌∷◌, replicate, Bytes, Result, ok}
use aca_py_did_kanon.Contracts.Convert.{raw, to_bytes, to_bytes32}
use aca_py_did_kanon.Contracts.MerkleState.{Receipt}
use aca_py_did_kanon.Contracts.Transaction.{Node}

abbrev receipt : Receipt
receipt = record { tx_hash = 1 ∷ []; block_number = 6; status = 1 }

abbrev node : Node (Bytes × Bytes)
node = record {
  base_fee = ok none;
  max_priority_fee = ok 2;
  gas_price = ok 9;
  transaction_count = ok 4;
  chain_id = ok 5;
  estimate_gas = λ name args. ok 21000;
  send = λ tx. ok receipt;
}

abbrev cd : Bytes
cd = replicate 32 9

abbrev ch : Bytes
ch = replicate 32 1

cd_read : to_bytes32 (raw cd) ≡ ok cd
unfolding to_bytes32 to_bytes
cd_read = refl

ch_read : to_bytes32 (raw ch) ≡ ok ch
unfolding to_bytes32 to_bytes
ch_read = refl

abbrev view : Bytes → Bytes → Result ℕ
view c h = ok 2
