-- ===== src/Config/Sources.antt =====
-- `from_environment` and `from_settings`. The settings are the object of the YAML file.
use aca_py_did_kanon.Prelude.{
  Option, none, some, List, [], ◌∷◌, ◌++◌, if◌then◌else◌, Bytes, Result, ok, err, type_error,
  other_error, ◌>>=◌, ◌>>◌,
}
use aca_py_did_kanon.Prelude.Dict.{Dict, put, has}
use aca_py_did_kanon.Prelude.Hex.{codes}
use aca_py_did_kanon.Prelude.Text.{strip, upper}
use aca_py_did_kanon.Prelude.Value.{
  Value, null, string, array, object, Fields, end, field, get_of, get_field, get_field_or,
  object_or_empty, truthy,
}
use aca_py_did_kanon.Config.{
  registry_keys, KanonNetwork, text_or_empty, or_none, file_addresses, require, DidKanonConfig,
}
use aca_py_did_kanon.Config.Values.{int_or_none, org_id_or_none, policy_mask_or_default}

-- `os.getenv(name)` as a value.
abbrev pub env_value : Option Bytes → Value
env_value none = null
env_value (some t) = string t

-- `os.getenv(name, "").strip()`
abbrev pub env_text : (Bytes → Option Bytes) → Bytes → Bytes
env_text env name = strip (text_or_empty (env name))

-- `if override: addresses[key] = override`
unfoldable pub override : Bytes → Bytes → Dict Bytes → Dict Bytes
override key [] addresses = addresses
override key (c ∷ cs) addresses = put key (c ∷ cs) addresses

abbrev pub address_variable : Bytes → Bytes
address_variable key = codes "KANON_" ++ (upper key ++ codes "_ADDRESS")

-- The loop over `REGISTRY_KEYS`, with the text that overrides each key's address.
unfoldable pub overridden : (Bytes → Bytes) → List (Bytes × Bytes) → Dict Bytes → Dict Bytes
unfolding override
overridden text [] addresses = addresses
overridden text ((key, name) ∷ keys) addresses =
    overridden text keys (override key (text key) addresses)

unfoldable pub env_addresses : (Bytes → Option Bytes) → Dict Bytes → Dict Bytes
unfolding overridden
env_addresses env = overridden (λ key. env_text env (address_variable key)) registry_keys

-- `text or DEFAULT_NETWORK`
abbrev pub or_kanon : Bytes → Bytes
or_kanon [] = codes "kanon"
or_kanon (c ∷ cs) = c ∷ cs

abbrev pub env_network : Option Bytes → Bytes
env_network none = codes "kanon"
env_network (some t) = or_kanon (strip t)

unfoldable pub from_environment :
    (Bytes → Option Bytes) → (Bytes → Result Value) → Result DidKanonConfig
from_environment env read_json =
    let name = env_network (env (codes "KANON_NETWORK")) in
    let rpc = env_text env (codes "KANON_RPC_URL") in
    let book = or_none (env_text env (codes "KANON_ADDRESS_BOOK")) in
    do
      from_file ← file_addresses read_json (env_text env (codes "KANON_DEPLOYMENT_FILE"))
      let addresses = env_addresses env from_file
      require rpc addresses book
      chain_id ← int_or_none (env_value (env (codes "KANON_CHAIN_ID")))
      org_id ← org_id_or_none (env_value (env (codes "KANON_ORG_ID")))
      mask ← policy_mask_or_default (env_value (env (codes "KANON_DEFAULT_POLICY_MASK"))) 1
      ok (record {
        networks =
            (
              name,
              record {
                name = name;
                rpc_url = rpc;
                addresses = addresses;
                chain_id = chain_id;
                operator_key = or_none (env_text env (codes "KANON_OPERATOR_KEY"));
                address_book = book;
                issuer_org_id = org_id;
                default_policy_mask = mask;
              },
            )
            ∷ [];
        default_network = name;
      })

-- `(v or "").strip()`
unfoldable pub stripped : Value → Result Bytes
stripped (string s) = ok (strip s)
stripped v = if truthy v then err other_error else ok []

-- The same if the value is a text, and else None, which counts as empty.
unfoldable pub stripped_text : Value → Bytes
stripped_text (string s) = strip s
stripped_text v = []

-- The same loop with the entries of `addresses:`.
unfoldable pub explicit_addresses : Fields → Dict Bytes → Dict Bytes
unfolding overridden stripped_text
explicit_addresses explicit =
    overridden (λ key. stripped_text (get_field key explicit)) registry_keys

-- `key or os.getenv(…) or None`
abbrev pub operator_key_of : Bytes → Bytes → Option Bytes
operator_key_of [] from_env = or_none from_env
operator_key_of (c ∷ cs) from_env = some (c ∷ cs)

-- One entry of `networks`.
unfoldable pub settings_network :
    (Bytes → Option Bytes) → (Bytes → Result Value) → Bytes → Value → Result KanonNetwork
unfolding get_of
settings_network env read_json name cfg = do
  rpc_value ← get_of (codes "rpc_url") cfg
  rpc ← stripped rpc_value
  dep_value ← get_of (codes "deployment_file") cfg
  dep_file ← stripped dep_value
  from_file ← file_addresses read_json dep_file
  explicit_value ← get_of (codes "addresses") cfg
  explicit ← object_or_empty explicit_value
  let addresses = explicit_addresses explicit from_file
  book_value ← get_of (codes "address_book") cfg
  let book = or_none (stripped_text book_value)
  require rpc addresses book
  key_value ← get_of (codes "operator_key") cfg
  key ← stripped key_value
  chain_value ← get_of (codes "chain_id") cfg
  chain_id ← int_or_none chain_value
  org_value ← get_of (codes "org_id") cfg
  org_id ← org_id_or_none org_value
  mask_value ← get_of (codes "default_policy_mask") cfg
  mask ← policy_mask_or_default mask_value 1
  ok (record {
    name = name;
    rpc_url = rpc;
    addresses = addresses;
    chain_id = chain_id;
    operator_key = operator_key_of key (env_text env (codes "KANON_OPERATOR_KEY_" ++ upper name));
    address_book = book;
    issuer_org_id = org_id;
    default_policy_mask = mask;
  })

-- The loop over `raw_networks`, after the networks read.
unfoldable pub settings_networks :
    (Bytes → Option Bytes)
    → (Bytes → Result Value)
    → Fields
    → Dict KanonNetwork
    → Result (Dict KanonNetwork)
settings_networks env read_json end networks = ok networks
settings_networks env read_json (field name cfg raw) networks = do
  net ← settings_network env read_json name cfg
  settings_networks env read_json raw (put name net networks)

-- The default network: the one that the settings name if it is there, and else the first.
unfoldable pub default_of : Value → Bytes → Dict KanonNetwork → Result Bytes
default_of (string s) first networks = ok (if has s networks then s else first)
default_of (array vs) first networks = err type_error
default_of (object fs) first networks = err type_error
default_of v first networks = ok first

unfoldable pub with_networks :
    (Bytes → Option Bytes)
    → (Bytes → Result Value)
    → Value
    → Dict KanonNetwork
    → Result DidKanonConfig
unfolding default_of
with_networks env read_json wanted [] = from_environment env read_json
with_networks env read_json wanted ((first, net) ∷ rest) = do
  name ← default_of wanted first ((first, net) ∷ rest)
  ok (record { networks = (first, net) ∷ rest; default_network = name })

unfoldable pub from_settings :
    (Bytes → Option Bytes) → (Bytes → Result Value) → Fields → Result DidKanonConfig
unfolding settings_networks with_networks
from_settings env read_json end = from_environment env read_json
from_settings env read_json (field k v fs) = do
  raw_networks ← object_or_empty (get_field (codes "networks") (field k v fs))
  networks ← settings_networks env read_json raw_networks []
  with_networks env read_json (get_field_or (codes "default_network") (string []) (field k v fs))
      networks
