-- ===== src/Config/Tests.antt =====
-- A network with an address book, one from a deployment file, and one with overrides.
use aca_py_did_kanon.Prelude.{
  ◌≡◌, refl, Option, none, some, [], ◌∷◌, if◌then◌else◌, Bytes, bytes_eq, Result, ok, err,
  config_error,
}
use aca_py_did_kanon.Prelude.Dict.{get, put}
use aca_py_did_kanon.Prelude.Hex.{codes}
use aca_py_did_kanon.Prelude.Text.{
  strip, strip_left, strip_right, upper, upper_char, int_of, signed_value, digits_value, pos,
}
use aca_py_did_kanon.Prelude.Value.{
  Value, string, object, Fields, end, field, get_field, get_field_or, object_or_empty,
}
use aca_py_did_kanon.Config.{
  text_or_empty, or_none, load_deployment_file, file_addresses, missing, require, KanonNetwork,
  DidKanonConfig,
}
use aca_py_did_kanon.Config.Sources.{
  env_addresses, explicit_addresses, stripped, stripped_text, settings_network, from_environment,
  from_settings,
}
use aca_py_did_kanon.Config.Values.{
  int_text, int_or_none, org_id_or_none, mask_of_text, mask_of_token, policy_mask_or_default,
}
use aca_py_did_kanon.Config.Required.{IsReady, from_settings-IsReady}

abbrev no_file : Bytes → Result Value
no_file path = err config_error

abbrev env : Bytes → Option Bytes
env name =
    if bytes_eq name (codes "KANON_RPC_URL")
    then some (codes " http://node ")
    else if bytes_eq name (codes "KANON_ADDRESS_BOOK")
    then some (codes "0xb")
    else if bytes_eq name (codes "KANON_DID_REGISTRY_ADDRESS")
    then some (codes "0xd")
    else none

abbrev deployed : Bytes → Result Value
deployed path = ok (
    object (
      field (codes "addresses")
        (object (
          field (codes "DIDRegistry") (string (codes "0x1"))
            (field (codes "SchemaRegistry") (string (codes " 0x2 ")) end)))
        end))

abbrev cfg : Fields
cfg = field (codes "rpc_url") (string (codes "http://node")) (
    field (codes "deployment_file") (string (codes "f")) (
      field (codes "address_book") (string (codes "0xb")) (
        field (codes "chain_id") (string (codes "1947")) (
          field (codes "default_policy_mask") (string (codes "zk")) (
            field (codes "addresses")
              (object (field (codes "did_registry") (string (codes " 0xd ")) end)) end)))))

abbrev settings : Fields
settings = field (codes "networks") (object (field (codes "kanon") (object cfg) end)) end

abbrev net : KanonNetwork
net = record {
  name = codes "kanon";
  rpc_url = codes "http://node";
  addresses = (codes "did_registry", codes "0xd") ∷ (codes "schema_registry", codes "0x2") ∷ [];
  chain_id = some (pos 1947);
  operator_key = none;
  address_book = some (codes "0xb");
  issuer_org_id = none;
  default_policy_mask = 2;
}

abbrev config : DidKanonConfig
config = record { networks = (codes "kanon", net) ∷ []; default_network = codes "kanon" }

reads_settings : from_settings env deployed settings ≡ ok config
unfolding from_settings settings_network stripped stripped_text explicit_addresses strip strip_left
    strip_right file_addresses load_deployment_file or_none text_or_empty require missing
    int_or_none int_text int_of signed_value digits_value org_id_or_none policy_mask_or_default
    mask_of_text mask_of_token upper upper_char object_or_empty get_field get_field_or get bytes_eq
    put
reads_settings = refl

from_settings-IsReady_example : IsReady config
from_settings-IsReady_example = from_settings-IsReady env deployed settings config reads_settings

reads_network : settings_network env deployed (codes "kanon") (object cfg) ≡ ok net
unfolding settings_network stripped stripped_text explicit_addresses strip strip_left strip_right
    file_addresses load_deployment_file or_none text_or_empty require missing int_or_none int_text
    int_of signed_value digits_value org_id_or_none policy_mask_or_default mask_of_text
    mask_of_token upper upper_char object_or_empty get_field get bytes_eq put
reads_network = refl

abbrev env_net : KanonNetwork
env_net = record {
  name = codes "kanon";
  rpc_url = codes "http://node";
  addresses = (codes "did_registry", codes "0xd") ∷ [];
  chain_id = none;
  operator_key = none;
  address_book = some (codes "0xb");
  issuer_org_id = none;
  default_policy_mask = 1;
}

abbrev env_config : DidKanonConfig
env_config = record { networks = (codes "kanon", env_net) ∷ []; default_network = codes "kanon" }

reads_environment : from_environment env no_file ≡ ok env_config
unfolding from_environment env_addresses strip strip_left strip_right file_addresses or_none
    text_or_empty require missing int_or_none org_id_or_none policy_mask_or_default upper upper_char
    bytes_eq put
reads_environment = refl
