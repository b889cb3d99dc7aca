-- ===== src/Config.antt =====
-- config.py: the networks that the plugin talks to, from the environment or from settings. What
-- `os.getenv` and the reading of a deployment file give are the arguments `env` and `read_json`; the
-- latter raises OSError, or ValueError for a text that is no JSON.
pub mod Values
pub mod Sources
pub mod Required
pub mod Precedence
mod Tests
use aca_py_did_kanon.Prelude.{
  ℕ, Bool, true, false, not, ◌&&◌, ◌||◌, Option, none, some, List, [], ◌∷◌, ◌++◌, arith,
  if◌then◌else◌, Bytes, bytes_eq, Error, Result, ok, err, config_error, os_error, value_error,
  type_error, other_error, ◌>>=◌, ◌>>◌, raise_if,
}
use aca_py_did_kanon.Prelude.Dict.{Dict, get, put, has}
use aca_py_did_kanon.Prelude.Hex.{codes}
use aca_py_did_kanon.Prelude.Text.{ℤ, is_empty, strip, upper}
use aca_py_did_kanon.Prelude.Value.{
  Value, null, boolean, number, string, array, object, Items, nil, cons, Fields, end, field, get_of,
  get_field, object_or_empty, truthy,
}
use aca_py_did_kanon.Config.Values.{int_or_none, org_id_or_none, policy_mask_or_default}

-- `REGISTRY_KEYS`: a registry's key and its name in a deployment file.
abbrev pub registry_keys : List (Bytes × Bytes)
registry_keys =
    (codes "org_registry", codes "OrganizationRegistry")
    ∷ (codes "did_registry", codes "DIDRegistry")
    ∷ (codes "schema_registry", codes "SchemaRegistry")
    ∷ (codes "cred_def_registry", codes "CredentialDefinitionRegistry")
    ∷ (codes "merkle_state_registry", codes "MerkleStateRegistry")
    ∷ (codes "status_registry", codes "AnonCredsStatusRegistry")
    ∷ (codes "verifier_registry", codes "Halo2VerifierRegistry")
    ∷ []

-- `_REQUIRED_KEYS`
abbrev pub required_keys : List Bytes
required_keys =
    codes "org_registry"
    ∷ codes "did_registry"
    ∷ codes "schema_registry"
    ∷ codes "cred_def_registry"
    ∷ codes "merkle_state_registry"
    ∷ codes "status_registry"
    ∷ []

pub record KanonNetwork : Type 0 where
  pub name : Bytes
  pub rpc_url : Bytes
  pub addresses : Dict Bytes
  pub chain_id : Option ℤ
  pub operator_key : Option Bytes
  pub address_book : Option Bytes
  pub issuer_org_id : Option Bytes
  pub default_policy_mask : ℕ

-- The text of an entry that may be missing or empty.
unfoldable pub text_or_empty : Option Bytes → Bytes
text_or_empty none = []
text_or_empty (some t) = t

-- `text or None`
unfoldable pub or_none : Bytes → Option Bytes
or_none [] = none
or_none (c ∷ cs) = some (c ∷ cs)

-- `KanonNetwork.address`
unfoldable pub address : KanonNetwork → Bytes → Result Bytes
unfolding text_or_empty or_none
address net key = elim (or_none (text_or_empty (get key net.addresses))) [
  | none ↦ err config_error
  | some found ↦ ok found
]

-- `name_to_key.get(contract_name)`
unfoldable pub key_of : List (Bytes × Bytes) → Bytes → Option Bytes
key_of [] contract_name = none
key_of ((key, name) ∷ rest) contract_name =
    let other = key_of rest contract_name in if bytes_eq name contract_name then some key else other

-- An entry of a deployment file, if it is an address of a registry.
unfoldable pub entry_of : Bytes → Value → Option (Bytes × Bytes)
unfolding key_of strip
entry_of contract_name (string addr) = elim (key_of registry_keys contract_name) [
  | none ↦ none
  | some key ↦ if is_empty (strip addr) then none else some (key, strip addr)
]
entry_of contract_name v = none

-- `_addresses_from_mapping`, after the entries of `out`.
unfoldable pub addresses_from_mapping : Fields → Dict Bytes → Dict Bytes
unfolding entry_of
addresses_from_mapping end out = out
addresses_from_mapping (field contract_name addr src) out =
    addresses_from_mapping src
      (elim (entry_of contract_name addr) [ none ↦ out | some (key, a) ↦ put key a out ])

-- `block`, in the way the code tests its type.
unfoldable pub block_of : Value → Fields
block_of (object fs) = elim (get_field (codes "addresses") fs) [ object block ↦ block | other ↦ fs ]
block_of v = end

-- The `except` clause.
unfoldable pub file_error : Error → Error
file_error os_error = config_error
file_error value_error = config_error
file_error e = e

unfoldable pub load_deployment_file : (Bytes → Result Value) → Bytes → Result (Dict Bytes)
unfolding addresses_from_mapping block_of file_error
load_deployment_file read_json path = elim (read_json path) [
  | ok data' ↦ ok (addresses_from_mapping (block_of data') [])
  | err e ↦ err (file_error e)
]

-- `addresses`, from a deployment file where one is named.
unfoldable pub file_addresses : (Bytes → Result Value) → Bytes → Result (Dict Bytes)
unfolding load_deployment_file
file_addresses read_json dep_file =
    if is_empty dep_file then ok [] else load_deployment_file read_json dep_file

-- The required keys whose address is missing or empty.
unfoldable pub missing_keys : Dict Bytes → List Bytes → List Bytes
unfolding text_or_empty
missing_keys addresses [] = []
missing_keys addresses (key ∷ keys) =
    let rest = missing_keys addresses keys in
    if is_empty (text_or_empty (get key addresses)) then key ∷ rest else rest

-- `missing`
unfoldable pub missing : Bytes → Dict Bytes → Option Bytes → List Bytes
unfolding missing_keys
missing rpc addresses address_book =
    (if is_empty rpc then codes "rpc_url" ∷ [] else [])
    ++ (elim address_book [ some book ↦ [] | none ↦ missing_keys addresses required_keys ])

-- `_require`
unfoldable pub require : Bytes → Dict Bytes → Option Bytes → Result (Unit {0})
unfolding missing
require rpc addresses address_book = elim (missing rpc addresses address_book) [
  | [] ↦ ok tt
  | key ∷ keys ↦ err config_error
]

pub record DidKanonConfig : Type 0 where
  pub networks : Dict KanonNetwork
  pub default_network : Bytes

-- `network`
unfoldable pub network : DidKanonConfig → Option Bytes → Result KanonNetwork
unfolding text_or_empty or_none
network config name =
    let key : Bytes = elim (or_none (text_or_empty name)) [
      | none ↦ config.default_network
      | some n ↦ n
    ] in
    elim (get key config.networks) [ none ↦ err value_error | some net ↦ ok net ]
