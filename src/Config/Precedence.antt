-- ===== src/Config/Precedence.antt =====
-- Where a network's addresses come from: an override goes before the deployment file.
use aca_py_did_kanon.Prelude.{
  ◌≡◌, refl, ap, sym, ◌∙◌, inl, inr, Bool, true, false, ◌||◌, Bool-cases, Option, none, some, List,
  [], ◌∷◌, arith, if◌then◌else◌, Bytes, bytes_eq, Result, ok, Ensures, returned, after, Ensures-ok,
  bytes_eq→eq, ok_inj,
}
use aca_py_did_kanon.Prelude.Dict.{Dict, get, get-put}
use aca_py_did_kanon.Prelude.Hex.{codes}
use aca_py_did_kanon.Prelude.Value.{Value, object, Fields, get_field, object_or_empty}
use aca_py_did_kanon.Config.{
  registry_keys, file_addresses, KanonNetwork, or_none, require, DidKanonConfig, network,
}
use aca_py_did_kanon.Config.Sources.{
  env_text, env_value, env_network, address_variable, override, overridden, env_addresses, stripped,
  stripped_text, explicit_addresses, from_environment, settings_network,
}
use aca_py_did_kanon.Config.Required.{network-default, get-head}
use aca_py_did_kanon.Config.Values.{int_or_none, org_id_or_none, policy_mask_or_default}

unfoldable pub mentions : List (Bytes × Bytes) → Bytes → Bool
mentions [] k = false
mentions ((key, name) ∷ keys) k = bytes_eq key k || mentions keys k

-- The override if there is one, and else what stands in the file.
abbrev pub preferred : Bytes → Option Bytes → Option Bytes
preferred [] from_file = from_file
preferred (c ∷ cs) from_file = some (c ∷ cs)

get-override :
    (key k text : Bytes) (addresses : Dict Bytes)
    → get k (override key text addresses)
      ≡ (if bytes_eq key k then preferred text (get k addresses) else get k addresses)
unfolding override
get-override key k [] addresses = ground arith
get-override key k (c ∷ cs) addresses = get-put key k (c ∷ cs) addresses

preferred_again : (t : Bytes) (o : Option Bytes) → preferred t (preferred t o) ≡ preferred t o
preferred_again [] o = refl
preferred_again (c ∷ cs) o = refl

get-overridden :
    (text : Bytes → Bytes) (keys : List (Bytes × Bytes)) (k : Bytes) (addresses : Dict Bytes)
    → get k (overridden text keys addresses)
      ≡ (if mentions keys k then preferred (text k) (get k addresses) else get k addresses)
unfolding overridden mentions
get-overridden text [] k addresses = refl
get-overridden text ((key, name) ∷ keys) k addresses = elim (Bool-cases (bytes_eq key k)) [
  | inl same ↦
      let here : get k (override key (text key) addresses) ≡ preferred (text k) (get k addresses) =
        get-override key k (text key) addresses
        ∙ rw same (ap (λ j. preferred (text j) (get k addresses)) (bytes_eq→eq key k same)) in
      get-overridden text keys k (override key (text key) addresses)
      ∙ rw (here, same) (either (mentions keys k) (text k) (get k addresses))
  | inr other ↦
      let here : get k (override key (text key) addresses) ≡ get k addresses =
        get-override key k (text key) addresses ∙ rw other refl in
      get-overridden text keys k (override key (text key) addresses) ∙ rw (here, other) refl
]
  where
    either :
        (b : Bool) (t : Bytes) (o : Option Bytes)
        → (if b then preferred t (preferred t o) else preferred t o) ≡ preferred t o
    either true t o = preferred_again t o
    either false t o = refl

-- The addresses of a network from settings, where its file and its explicit addresses are read.
settings_network-Prefers :
    (env : Bytes → Option Bytes) (read_json : Bytes → Result Value) (name : Bytes) (fs : Fields)
    (explicit : Fields) (dep_file : Bytes) (from_file : Dict Bytes)
    → stripped (get_field (codes "deployment_file") fs) ≡ ok dep_file
    → file_addresses read_json dep_file ≡ ok from_file
    → object_or_empty (get_field (codes "addresses") fs) ≡ ok explicit
    → Ensures
        (λ net. net.addresses ≡ explicit_addresses explicit from_file)
        (settings_network env read_json name (object fs))
unfolding settings_network
settings_network-Prefers env read_json name fs explicit dep_file from_file h1 h2 h3 =
    after (stripped (get_field (codes "rpc_url") fs)) _ λ rpc _.
      after (stripped (get_field (codes "deployment_file") fs)) _ λ dep' e1.
        after (file_addresses read_json dep') _ λ from_file' e2.
          after (object_or_empty (get_field (codes "addresses") fs)) _ λ explicit' e3.
            let addresses = explicit_addresses explicit' from_file' in
            let book = or_none (stripped_text (get_field (codes "address_book") fs)) in
            after (require rpc addresses book) _ λ u _.
              after (stripped (get_field (codes "operator_key") fs)) _ λ key _.
                after (int_or_none (get_field (codes "chain_id") fs)) _ λ chain _.
                  after (org_id_or_none (get_field (codes "org_id") fs)) _ λ org _.
                    after (policy_mask_or_default (get_field (codes "default_policy_mask") fs) 1) _
                      λ mask _.
                        let same_file : from_file' ≡ from_file =
                          ok_inj (
                            sym e2 ∙ (ap (file_addresses read_json) (ok_inj (sym e1 ∙ h1)) ∙ h2)) in
                        returned _ (
                          ap (λ e. explicit_addresses e from_file') (ok_inj (sym e3 ∙ h3))
                          ∙ ap (explicit_addresses explicit) same_file)

-- The address of a registry of a network from settings is the text under `addresses:`, stripped, if it
-- is there and not blank, and else what the deployment file has; so the file cannot override a setting.
pub settings_network_addresses :
    (env : Bytes → Option Bytes) (read_json : Bytes → Result Value) (name : Bytes) (fs : Fields)
    (explicit : Fields) (dep_file : Bytes) (from_file : Dict Bytes) (net : KanonNetwork) (k : Bytes)
    → settings_network env read_json name (object fs) ≡ ok net
    → stripped (get_field (codes "deployment_file") fs) ≡ ok dep_file
    → file_addresses read_json dep_file ≡ ok from_file
    → object_or_empty (get_field (codes "addresses") fs) ≡ ok explicit
    → mentions registry_keys k ≡ true
    → get k net.addresses ≡ preferred (stripped_text (get_field k explicit)) (get k from_file)
unfolding explicit_addresses
settings_network_addresses env read_json name fs explicit dep_file from_file net k h h1 h2 h3
      known =
    ap (get k) (
      Ensures-ok
        (settings_network-Prefers env read_json name fs explicit dep_file from_file h1 h2 h3) h)
    ∙ (get-overridden (λ key. stripped_text (get_field key explicit)) registry_keys k from_file
        ∙ rw known refl)

from_environment-Prefers :
    (env : Bytes → Option Bytes) (read_json : Bytes → Result Value) (from_file : Dict Bytes)
    → file_addresses read_json (env_text env (codes "KANON_DEPLOYMENT_FILE")) ≡ ok from_file
    → Ensures
        (λ config.
          (net : KanonNetwork) × (network config none ≡ ok net)
          × (net.addresses ≡ env_addresses env from_file))
        (from_environment env read_json)
unfolding from_environment
from_environment-Prefers env read_json from_file h =
    let name = env_network (env (codes "KANON_NETWORK")) in
    let rpc = env_text env (codes "KANON_RPC_URL") in
    let book = or_none (env_text env (codes "KANON_ADDRESS_BOOK")) in
    after (file_addresses read_json (env_text env (codes "KANON_DEPLOYMENT_FILE"))) _
      λ from_file' e.
        let addresses = env_addresses env from_file' in
        after (require rpc addresses book) _ λ u required.
          after (int_or_none (env_value (env (codes "KANON_CHAIN_ID")))) _ λ chain_id _.
            after (org_id_or_none (env_value (env (codes "KANON_ORG_ID")))) _ λ org_id _.
              after (policy_mask_or_default (env_value (env (codes "KANON_DEFAULT_POLICY_MASK"))) 1)
                _
                λ mask _. returned _ (
                  _,
                  network-default _ _ (get-head name _ []),
                  ap (env_addresses env) (ok_inj (sym e ∙ h)),
                )

-- The same for a configuration from the environment, with `KANON_<KEY>_ADDRESS` in place of the
-- explicit address: the default network has it if it is not blank, and else what the file has.
pub from_environment_addresses :
    (env : Bytes → Option Bytes) (read_json : Bytes → Result Value) (from_file : Dict Bytes)
    (config : DidKanonConfig) (k : Bytes)
    → from_environment env read_json ≡ ok config
    → file_addresses read_json (env_text env (codes "KANON_DEPLOYMENT_FILE")) ≡ ok from_file
    → mentions registry_keys k ≡ true
    → (net : KanonNetwork) × (network config none ≡ ok net)
      × (get k net.addresses ≡ preferred (env_text env (address_variable k)) (get k from_file))
unfolding env_addresses
from_environment_addresses env read_json from_file config k h h1 known =
    let (net, e, same) = Ensures-ok (from_environment-Prefers env read_json from_file h1) h in
    (
      net,
      e,
      ap (get k) same
          ∙ (get-overridden (λ key. env_text env (address_variable key)) registry_keys k from_file
              ∙ rw known refl),
    )
