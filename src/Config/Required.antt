-- ===== src/Config/Required.antt =====
-- What a configuration that loads has: the plugin fails closed on a missing URL or address.
use aca_py_did_kanon.Prelude.{
  ◌≡◌, refl, ◌⊎◌, inl, inr, false, Bool-cases, Option, none, some, Option-cases, List, [], ◌∷◌,
  arith, Bytes, bytes_eq, Result, ok, err, Ensures, returned, raised, after, Ensures-ok, All,
  config_error,
}
use aca_py_did_kanon.Prelude.Dict.{Dict, get, put, has}
use aca_py_did_kanon.Prelude.ByteList.{bytes_eq_refl}
use aca_py_did_kanon.Prelude.Text.{is_empty}
use aca_py_did_kanon.Prelude.Value.{
  Value, null, boolean, number, string, array, object, Fields, end, field, get_of, object_or_empty,
  get_field, get_field_or,
}
use aca_py_did_kanon.Prelude.Hex.{codes}
use aca_py_did_kanon.Config.Values.{int_or_none, org_id_or_none, policy_mask_or_default}
use aca_py_did_kanon.Config.{
  required_keys, file_addresses, KanonNetwork, text_or_empty, or_none, missing_keys, missing,
  require, DidKanonConfig, network,
}
use aca_py_did_kanon.Config.Sources.{
  env_network, env_text, env_value, env_addresses, stripped, stripped_text, explicit_addresses,
  from_environment, settings_network, settings_networks, default_of, with_networks, from_settings,
}

-- A key has a text that is not empty.
abbrev pub HasAddress : Dict Bytes → Bytes → Type 0
HasAddress addresses key = is_empty (text_or_empty (get key addresses)) ≡ false

-- A node to talk to, and an address book or an address for each required registry.
abbrev pub HasRequired : KanonNetwork → Type 0
HasRequired net =
    (is_empty net.rpc_url ≡ false)
    × (((book : Bytes) × (net.address_book ≡ some book))
        ⊎ All (HasAddress net.addresses) required_keys)

abbrev pub AllRequired : Dict KanonNetwork → Type 0
AllRequired networks = All (λ (e : Bytes × KanonNetwork). HasRequired e.1) networks

missing_keys-eq-nil :
    (addresses : Dict Bytes) (keys : List Bytes)
    → missing_keys addresses keys ≡ []
    → All (HasAddress addresses) keys
unfolding missing_keys
missing_keys-eq-nil addresses [] h = tt
missing_keys-eq-nil addresses (key ∷ keys) h = ground (arith, missing_keys-eq-nil addresses keys)

require-ok :
    (rpc : Bytes) (addresses : Dict Bytes) (book : Option Bytes) (u : Unit {0})
    → require rpc addresses book ≡ ok u
    → (is_empty rpc ≡ false)
      × (((b : Bytes) × (book ≡ some b)) ⊎ All (HasAddress addresses) required_keys)
unfolding require missing
require-ok [] addresses book u h = cc
require-ok (c ∷ rpc) addresses (some book) u h = (refl, inl (book, refl))
require-ok (c ∷ rpc) addresses none u h =
    (refl, inr (missing_keys-eq-nil addresses required_keys (nothing_missing _ h)))
  where
    nothing_missing :
        (keys : List Bytes)
        → (elim keys as (λ _. Result (Unit {0})) [ [] ↦ ok tt | key ∷ keys ↦ err config_error ])
          ≡ ok u
        → keys ≡ []
    nothing_missing [] h = refl
    nothing_missing (key ∷ keys) h = cc

settings_network-HasRequired :
    (env : Bytes → Option Bytes) (read_json : Bytes → Result Value) (name : Bytes) (cfg : Value)
    → Ensures HasRequired (settings_network env read_json name cfg)
unfolding settings_network
settings_network-HasRequired env read_json name cfg =
    after (get_of (codes "rpc_url") cfg) _ λ rpc_value _. after (stripped rpc_value) _ λ rpc _.
      after (get_of (codes "deployment_file") cfg) _ λ dep_value _.
        after (stripped dep_value) _ λ dep_file _.
          after (file_addresses read_json dep_file) _ λ from_file _.
            after (get_of (codes "addresses") cfg) _ λ explicit_value _.
              after (object_or_empty explicit_value) _ λ explicit _.
                after (get_of (codes "address_book") cfg) _ λ book_value _.
                  let addresses = explicit_addresses explicit from_file in
                  let book = or_none (stripped_text book_value) in
                  after (require rpc addresses book) _ λ u required.
                    after (get_of (codes "operator_key") cfg) _ λ key_value _.
                      after (stripped key_value) _ λ key _.
                        after (get_of (codes "chain_id") cfg) _ λ chain_value _.
                          after (int_or_none chain_value) _ λ chain _.
                            after (get_of (codes "org_id") cfg) _ λ org_value _.
                              after (org_id_or_none org_value) _ λ org _.
                                after (get_of (codes "default_policy_mask") cfg) _ λ mask_value _.
                                  after (policy_mask_or_default mask_value 1) _
                                    λ mask _. returned _ (require-ok rpc addresses book u required)

put-AllRequired :
    (name : Bytes) (net : KanonNetwork) (networks : Dict KanonNetwork)
    → HasRequired net
    → AllRequired networks
    → AllRequired (put name net networks)
unfolding put
put-AllRequired name net [] h all = (h, tt)
put-AllRequired name net ((k, old) ∷ networks) h all = elim (Bool-cases (bytes_eq k name)) [
  | inl same ↦ rw (same, put) (h, all.1)
  | inr other ↦ rw (other, put) (all.0, put-AllRequired name net networks h all.1)
]

settings_networks-AllRequired :
    (env : Bytes → Option Bytes) (read_json : Bytes → Result Value) (raw : Fields)
    (networks : Dict KanonNetwork)
    → AllRequired networks
    → Ensures AllRequired (settings_networks env read_json raw networks)
unfolding settings_networks
settings_networks-AllRequired env read_json end networks all = returned networks all
settings_networks-AllRequired env read_json (field name cfg raw) networks all =
    after (settings_network env read_json name cfg) _ λ net e.
      settings_networks-AllRequired env read_json raw (put name net networks) (
        put-AllRequired name net networks
          (Ensures-ok (settings_network-HasRequired env read_json name cfg) e) all)

-- Every network has what is required, and the default network is one of them.
abbrev pub IsReady : DidKanonConfig → Type 0
IsReady config = AllRequired config.networks × (net : KanonNetwork) × (network config none ≡ ok net)

pub network-default :
    (config : DidKanonConfig) (net : KanonNetwork)
    → get config.default_network config.networks ≡ some net
    → network config none ≡ ok net
unfolding network text_or_empty or_none
network-default config net h = rw (h, network)

pub get-head :
    (k : Bytes) (net : KanonNetwork) (rest : Dict KanonNetwork) → get k ((k, net) ∷ rest) ≡ some net
unfolding get
get-head k net rest = rw (bytes_eq_refl k)

from_environment-IsReady :
    (env : Bytes → Option Bytes) (read_json : Bytes → Result Value)
    → Ensures IsReady (from_environment env read_json)
unfolding from_environment
from_environment-IsReady env read_json =
    let name = env_network (env (codes "KANON_NETWORK")) in
    let rpc = env_text env (codes "KANON_RPC_URL") in
    let book = or_none (env_text env (codes "KANON_ADDRESS_BOOK")) in
    after (file_addresses read_json (env_text env (codes "KANON_DEPLOYMENT_FILE"))) _ λ from_file _.
      let addresses = env_addresses env from_file in
      after (require rpc addresses book) _ λ u required.
        after (int_or_none (env_value (env (codes "KANON_CHAIN_ID")))) _ λ chain_id _.
          after (org_id_or_none (env_value (env (codes "KANON_ORG_ID")))) _ λ org_id _.
            after (policy_mask_or_default (env_value (env (codes "KANON_DEFAULT_POLICY_MASK"))) 1) _
              λ mask _. returned _ (
                (require-ok rpc addresses book u required, tt),
                _,
                network-default _ _ (get-head name _ []),
              )

default_of-mem :
    (wanted : Value) (first : Bytes) (net : KanonNetwork) (networks : Dict KanonNetwork)
    → get first networks ≡ some net
    → Ensures
        (λ name. (n : KanonNetwork) × (get name networks ≡ some n))
        (default_of wanted first networks)
unfolding default_of
default_of-mem null first net networks h = returned _ (net, h)
default_of-mem (boolean b) first net networks h = returned _ (net, h)
default_of-mem (number n) first net networks h = returned _ (net, h)
default_of-mem (array vs) first net networks h = raised _
default_of-mem (object fs) first net networks h = raised _
default_of-mem (string s) first net networks h = elim (Option-cases (get s networks)) [
  | inl gone ↦ rw (gone, has) (returned _ (net, h))
  | inr (n, there) ↦ rw (there, has) (returned _ (n, there))
]

with_networks-IsReady :
    (env : Bytes → Option Bytes) (read_json : Bytes → Result Value) (wanted : Value)
    (networks : Dict KanonNetwork)
    → AllRequired networks
    → Ensures IsReady (with_networks env read_json wanted networks)
unfolding with_networks
with_networks-IsReady env read_json wanted [] all = from_environment-IsReady env read_json
with_networks-IsReady env read_json wanted ((first, net) ∷ rest) all =
    after (default_of wanted first ((first, net) ∷ rest)) _ λ name e.
      let (n, there) =
        Ensures-ok (default_of-mem wanted first net ((first, net) ∷ rest) (get-head first net rest))
          e in
      returned _ (all, n, network-default _ n there)

from_settings-Ensures :
    (env : Bytes → Option Bytes) (read_json : Bytes → Result Value) (settings : Fields)
    → Ensures IsReady (from_settings env read_json settings)
unfolding from_settings
from_settings-Ensures env read_json end = from_environment-IsReady env read_json
from_settings-Ensures env read_json (field k v fs) =
    after (object_or_empty (get_field (codes "networks") (field k v fs))) _ λ raw _.
      after (settings_networks env read_json raw []) _ λ networks e.
        with_networks-IsReady env read_json
          (get_field_or (codes "default_network") (string []) (field k v fs)) networks
          (Ensures-ok (settings_networks-AllRequired env read_json raw [] tt) e)

-- Where the configuration loads, from settings or, without networks there, from the environment, each
-- of its networks has an RPC URL and an address book or an address that is not empty for each of the
-- six required registries, and the default network is one of its networks.
pub from_settings-IsReady :
    (env : Bytes → Option Bytes) (read_json : Bytes → Result Value) (settings : Fields)
    (config : DidKanonConfig)
    → from_settings env read_json settings ≡ ok config
    → IsReady config
from_settings-IsReady env read_json settings config h =
    Ensures-ok (from_settings-Ensures env read_json settings) h
