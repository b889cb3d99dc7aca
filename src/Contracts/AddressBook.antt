-- ===== src/Contracts/AddressBook.antt =====
-- contracts/address_book.py, `KanonAddressBook`: the addresses of the seven registries by key.
use aca_py_did_kanon.Prelude.{
  List, [], ◌∷◌, Bytes, Result, ok, err, client_error, index_error, ◌>>=◌,
}
use aca_py_did_kanon.Prelude.Dict.{Dict, put}
use aca_py_did_kanon.Prelude.Hex.{codes}
use aca_py_did_kanon.Contracts.Transaction.{read}

-- `_REGISTRIES_ORDER`
abbrev pub registries_order : List Bytes
registries_order =
    codes "org_registry"
    ∷ codes "did_registry"
    ∷ codes "schema_registry"
    ∷ codes "cred_def_registry"
    ∷ codes "merkle_state_registry"
    ∷ codes "status_registry"
    ∷ codes "verifier_registry"
    ∷ []

module _ (checksum : Bytes → Result Bytes) where
  -- `{key: to_checksum_address(raw[i]) for i, key in enumerate(keys)}`, after the entries of `found`.
  unfoldable pub by_key : List Bytes → List Bytes → Dict Bytes → Result (Dict Bytes)
  by_key [] raw found = ok found
  by_key (key ∷ keys) [] found = err index_error
  by_key (key ∷ keys) (a ∷ raw) found = do
    address ← checksum a
    by_key keys raw (put key address found)

  unfoldable pub resolve : Result (List Bytes) → Result (Dict Bytes)
  unfolding by_key
  resolve view = do raw ← read client_error view; by_key registries_order raw []

  -- Without `_read`, an exception of web3 goes on as it is.
  unfoldable pub resolve_sync : Result (List Bytes) → Result (Dict Bytes)
  unfolding by_key
  resolve_sync view = do raw ← view; by_key registries_order raw []
