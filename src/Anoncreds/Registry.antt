-- ===== src/Anoncreds/Registry.antt =====
-- anoncreds/registry.py: what its schema and cred-def methods share. `json.dumps` in its canonical form
-- and `json.loads` are arguments.
pub mod Schemas
pub mod CredDefs
pub mod Mask
pub mod Registered
mod Tests
use aca_py_did_kanon.Prelude.{
  ℕ, Bool, true, false, ◌||◌, Option, none, some, List, [], ◌∷◌, ◌++◌, ◌==◌, if◌then◌else◌, Bytes,
  bytes_eq, Error, client_error, registration_error, resolution_error, Result, ok, err, ◌>>=◌,
}
use aca_py_did_kanon.Prelude.Hex.{codes, starts_with}
use aca_py_did_kanon.Prelude.Text.{ℤ, pos, strip, upper}
use aca_py_did_kanon.Prelude.Value.{
  Value, Fields, null, boolean, number, string, array, object, end, field, get_field,
}
use aca_py_did_kanon.Identifiers.{Scope, org, user, parse_kanon_did}
use aca_py_did_kanon.Config.Values.{mask_of_token, mask_of_number}
use aca_py_did_kanon.Contracts.CredDefRegistry.{tier_one_time}
use aca_py_did_kanon.Zk.Eddsa.Base64.{b64encode, b64decode}

-- `except RegistryClientError: raise e`
abbrev pub client_as {ℓ} : {A : Type ℓ} → Error → Result A → Result A
client_as e (ok a) = ok a
client_as e (err client_error) = err e
client_as e (err d) = err d

-- `_data_uri_from_canonical`
unfoldable pub data_uri_from_canonical : Bytes → Bytes
data_uri_from_canonical canonical = codes "data:application/json;base64," ++ b64encode canonical

-- `uri.partition(",")`, without the separator.
unfoldable pub partition : Bytes → Bytes × Bytes
partition [] = ([], [])
partition (c ∷ cs) =
    let (before, after) = partition cs in if c == b',' then ([], cs) else (c ∷ before, after)

-- `part in text`
unfoldable pub occurs : Bytes → Bytes → Bool
occurs part [] = starts_with part []
occurs part (c ∷ cs) = starts_with part (c ∷ cs) || occurs part cs

-- The bytes of a payload; what base 64 refuses is None.
unfoldable pub payload_bytes : Bytes → Bytes → Option Bytes
unfolding occurs
payload_bytes meta payload =
    if occurs (codes "base64") meta
    then elim (b64decode payload) [ ok bs ↦ some bs | err e ↦ none ]
    else some payload

abbrev pub as_object : Option Value → Option Fields
as_object (some (object fs)) = some fs
as_object v = none

-- `_decode_data_uri`; `loads` gives None where it raises.
unfoldable pub decode_data_uri : (Bytes → Option Value) → Bytes → Option Fields
unfolding partition payload_bytes
decode_data_uri loads uri =
    if starts_with (codes "data:") uri
    then (let (meta, payload) = partition uri in
        elim (payload_bytes meta payload) [ some bs ↦ as_object (loads bs) | none ↦ none ])
    else none

-- `_issuer_org_id`
unfoldable pub issuer_org_id : Bytes → Result Bytes
issuer_org_id issuer_did = elim (parse_kanon_did issuer_did) [
  | none ↦ err registration_error
  | some parsed ↦ elim parsed.scope [
    | user ↦ err registration_error
    | org ↦ elim parsed.org_id [ none ↦ err registration_error | some id ↦ ok id ]
  ]
]

abbrev pub as_mask : Result ℕ → Result (Option ℕ)
as_mask (ok n) = ok (some n)
as_mask (err e) = err registration_error

-- `_coerce`
unfoldable pub coerce : Value → Result (Option ℕ)
coerce null = ok none
coerce (boolean b) = err registration_error
coerce (number n) = as_mask (mask_of_number n)
coerce (string s) = as_mask (mask_of_token (upper (strip s)))
coerce (array vs) = err registration_error
coerce (object fs) = err registration_error

abbrev pub mask_keys : List Bytes
mask_keys = codes "policy_mask" ∷ codes "policyMask" ∷ codes "tier" ∷ codes "tiers" ∷ []

-- The first option that is given and not null; an option that is missing reads as null.
unfoldable pub mask_option : List Bytes → Fields → Result (Option ℕ)
unfolding coerce
mask_option [] options = ok none
mask_option (key ∷ keys) options = do
  resolved ← coerce (get_field key options)
  elim resolved [ some mask ↦ ok (some mask) | none ↦ mask_option keys options ]

-- `_resolve_policy_mask`, with the default of the network.
unfoldable pub resolve_policy_mask : Fields → Value → Result ℕ
unfolding mask_option coerce
resolve_policy_mask options net_default = do
  given ← mask_option mask_keys options
  elim given [
    | some mask ↦ ok mask
    | none ↦ do
      resolved ← coerce net_default
      elim resolved [ some mask ↦ ok mask | none ↦ ok tier_one_time ]
  ]
