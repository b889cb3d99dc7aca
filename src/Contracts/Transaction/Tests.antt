-- ===== src/Contracts/Transaction/Tests.antt =====
-- A node that takes every transaction.
use aca_py_did_kanon.Prelude.{◌≡◌, refl, true, some, [], ◌∷◌, replicate, Bytes, ok, status_error}
use aca_py_did_kanon.Prelude.Hex.{codes}
use aca_py_did_kanon.Contracts.MerkleState.{Receipt}
use aca_py_did_kanon.Contracts.Transaction.{
  Transaction, Node, build_fee_fields, build_send, caught, send,
}
use aca_py_did_kanon.Contracts.Transaction.Sent.{CoversTip, send-sends}

abbrev pub receipt : Receipt
receipt = record { tx_hash = 1 ∷ []; block_number = 6; status = 1 }

abbrev pub words : Bytes × Bytes
words = (replicate 32 9, replicate 32 1)

abbrev pub node : Node (Bytes × Bytes)
node = record {
  base_fee = ok (some 7);
  max_priority_fee = ok 2;
  gas_price = ok 9;
  transaction_count = ok 4;
  chain_id = ok 5;
  estimate_gas = λ name args. ok 21000;
  send = λ tx. ok receipt;
}

sends : send status_error true node (codes "issueCredential") words ≡ ok receipt
unfolding send build_send build_fee_fields caught
sends = refl

send-sends_example :
    (true ≡ true)
    × (receipt.status ≡ 1)
    × (tx : Transaction (Bytes × Bytes)) × (node.send tx ≡ ok receipt)
    × (tx.fn_name ≡ codes "issueCredential")
    × (tx.args ≡ words)
    × (node.transaction_count ≡ ok tx.nonce)
    × (node.chain_id ≡ ok tx.chain_id)
    × CoversTip tx.fees
send-sends_example = send-sends status_error true node (codes "issueCredential") words receipt sends
