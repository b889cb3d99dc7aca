-- ===== src/Contracts/Transaction.antt =====
-- contracts/_base.py, `RegistryTxClient`: fee fields, sending a transaction and reading a view. What
-- the node answers during one call is a record; `Args` are the arguments of the contract's function.
pub mod Sent
mod Tests
use aca_py_did_kanon.Prelude.{
  ℕ, ◌+◌, ◌*◌, Bool, not, Option, none, some, Bytes, Error, Result, ok, err, contract_logic,
  already_initialized, web3_error, value_error, os_error, ◌==◌, ◌>>=◌, ◌>>◌, raise_if,
}
use aca_py_did_kanon.Contracts.MerkleState.{Receipt}

-- The two forms of the dict of fees.
pub data FeeFields : Type 0 where
  dynamic_fee : ℕ → ℕ → FeeFields
  gas_price : ℕ → FeeFields

pub record Transaction (Args : Type 0) : Type 0 where
  pub fn_name : Bytes
  pub args : Args
  pub nonce : ℕ
  pub chain_id : ℕ
  pub gas : ℕ
  pub fees : FeeFields

pub record Node (Args : Type 0) : Type 0 where
  -- `get_block("latest").get("baseFeePerGas")`
  pub base_fee : Result (Option ℕ)
  pub max_priority_fee : Result ℕ
  pub gas_price : Result ℕ
  pub transaction_count : Result ℕ
  pub chain_id : Result ℕ
  pub estimate_gas : Bytes → Args → Result ℕ
  -- Signing, sending and waiting for the receipt.
  pub send : Transaction Args → Result Receipt

-- `to_wei(2, "gwei")`
abbrev pub two_gwei : ℕ
two_gwei = 2000000000

abbrev pub ok_or_none {ℓ} : {A : Type ℓ} → Result (Option A) → Option A
ok_or_none (ok r) = r
ok_or_none (err e) = none

abbrev pub priority_fee : Result ℕ → ℕ
priority_fee (ok fee) = fee
priority_fee (err e) = two_gwei

module _ {Args : Type 0} (node : Node Args) where
  -- The float `base_fee * 2.0` is the exact product for a fee below 2 ^ 53.
  unfoldable pub build_fee_fields : Result FeeFields
  build_fee_fields = elim (ok_or_none node.base_fee) [
    | some base_fee ↦ ok (
        dynamic_fee (base_fee * 2 + priority_fee node.max_priority_fee)
          (priority_fee node.max_priority_fee))
    | none ↦ do price ← node.gas_price; ok (gas_price price)
  ]

  -- `_build_send`
  unfoldable pub build_send : Bytes → Args → Result Receipt
  unfolding build_fee_fields
  build_send fn_name args = do
    nonce ← node.transaction_count
    chain_id ← node.chain_id
    gas ← node.estimate_gas fn_name args
    fees ← build_fee_fields
    node.send (record {
      fn_name = fn_name;
      args = args;
      nonce = nonce;
      chain_id = chain_id;
      gas = gas;
      fees = fees;
    })

-- The `except` clauses, with the client's own exception.
unfoldable pub client_failure : Error → Error → Error
client_failure own contract_logic = own
client_failure own already_initialized = own
client_failure own web3_error = own
client_failure own value_error = own
client_failure own os_error = own
client_failure own e = e

unfoldable pub caught {ℓ} : {A : Type ℓ} → Error → Result A → Result A
caught own (ok a) = ok a
caught own (err e) = err (client_failure own e)

-- `_send`
unfoldable pub send : {Args : Type 0} → Error → Bool → Node Args → Bytes → Args → Result Receipt
unfolding build_send caught
send own has_key node fn_name args = do
  raise_if (not has_key) own
  result ← caught own (build_send node fn_name args)
  raise_if (not (result.status == 1)) own
  ok result

-- `_read`
unfoldable pub read {ℓ} : {A : Type ℓ} → Error → Result A → Result A
unfolding caught
read own view = caught own view
