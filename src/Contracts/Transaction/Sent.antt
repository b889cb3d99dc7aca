-- ===== src/Contracts/Transaction/Sent.antt =====
-- What a send that returns has done, and what one raises.
use aca_py_did_kanon.Prelude.{
  ℕ, ◌+◌, ◌*◌, ◌≤◌, ◌≡◌, refl, sym, subst, ◌∙◌, inl, inr, Bool, true, false, not, arith, ◌==◌,
  Bytes, Error, Result, ok, err, ◌>>=◌, raise_if, >>=-eq-ok, ok_inj, Option-cases,
}
use aca_py_did_kanon.Contracts.MerkleState.{Receipt}
use aca_py_did_kanon.Contracts.MerkleState.Batch.{unless-raised}
use aca_py_did_kanon.Contracts.Transaction.{
  FeeFields, dynamic_fee, gas_price, Transaction, Node, ok_or_none, priority_fee, build_fee_fields,
  build_send, caught, send,
}

caught-ok {ℓ} : {A : Type ℓ} (own : Error) (r : Result A) (a : A) → caught own r ≡ ok a → r ≡ ok a
unfolding caught
caught-ok own (ok x) a h = h
caught-ok own (err e) a h = cc

-- A fee that the node may charge covers its tip.
abbrev pub CoversTip : FeeFields → Type 0
CoversTip (dynamic_fee max_fee tip) = tip ≤ max_fee
CoversTip (gas_price price) = Unit

build_fee_fields-CoversTip :
    {Args : Type 0} (node : Node Args) (fees : FeeFields)
    → build_fee_fields node ≡ ok fees
    → CoversTip fees
unfolding build_fee_fields
build_fee_fields-CoversTip node fees h = elim (Option-cases (ok_or_none node.base_fee)) [
  | inr (base_fee, e) ↦
      let own : ok (
            dynamic_fee (base_fee * 2 + priority_fee node.max_priority_fee)
              (priority_fee node.max_priority_fee))
          ≡ ok fees =
        sym (rw (e, build_fee_fields) refl) ∙ h in
      subst CoversTip (ok_inj own) (omega arith)
  | inl e ↦
      let own : (node.gas_price >>= λ price. ok (gas_price price)) ≡ ok fees =
        sym (rw (e, build_fee_fields) refl) ∙ h in
      let (price, ep, last) = >>=-eq-ok node.gas_price (λ price. ok (gas_price price)) own in
      subst CoversTip (ok_inj last) tt
]

-- Where a client's send returns, an operator key is configured and the receipt is that of a transaction
-- that the node took: its status is 1, and the transaction calls the named function with the given
-- arguments, the node's nonce and chain, and a fee that covers its tip.
pub send-sends :
    {Args : Type 0} (own : Error) (has_key : Bool) (node : Node Args) (fn_name : Bytes)
    (args : Args) (receipt : Receipt)
    → send own has_key node fn_name args ≡ ok receipt
    → (has_key ≡ true)
      × (receipt.status ≡ 1)
      × (tx : Transaction Args) × (node.send tx ≡ ok receipt)
      × (tx.fn_name ≡ fn_name)
      × (tx.args ≡ args)
      × (node.transaction_count ≡ ok tx.nonce)
      × (node.chain_id ≡ ok tx.chain_id)
      × CoversTip tx.fees
unfolding send build_send
send-sends {Args = Args} own has_key node fn_name args receipt h =
    let (u1, e1, h1) = >>=-eq-ok (raise_if (not has_key) own) _ h in
    let (result, er, h2) = >>=-eq-ok (caught own (build_send node fn_name args)) _ h1 in
    let (u2, e2, h3) = >>=-eq-ok (raise_if (not (result.status == 1)) own) (λ u. ok result) h2 in
    let one : result.status ≡ 1 =
      status (result.status) (unless-raised (not (result.status == 1)) own u2 e2) in
    let built : build_send node fn_name args ≡ ok result =
      caught-ok own (build_send node fn_name args) result er in
    let (nonce, en, b1) = >>=-eq-ok node.transaction_count _ built in
    let (chain_id, ec, b2) = >>=-eq-ok node.chain_id _ b1 in
    let (gas, eg, b3) = >>=-eq-ok (node.estimate_gas fn_name args) _ b2 in
    let (fees, ef, b4) = >>=-eq-ok (build_fee_fields node) _ b3 in
    let tx : Transaction Args = record {
      fn_name = fn_name;
      args = args;
      nonce = nonce;
      chain_id = chain_id;
      gas = gas;
      fees = fees;
    } in
    (
      key has_key (unless-raised (not has_key) own u1 e1),
      subst (λ r. Receipt.status r ≡ 1) (ok_inj h3) one,
      tx,
      b4 ∙ h3,
      refl,
      refl,
      en,
      ec,
      build_fee_fields-CoversTip node fees ef,
    )
  where
    key : (b : Bool) → not b ≡ false → b ≡ true
    key true h = refl
    key false h = cc

    status : (n : ℕ) → not (n == 1) ≡ false → n ≡ 1
    status n h = ground arith
