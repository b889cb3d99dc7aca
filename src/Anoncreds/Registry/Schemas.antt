-- ===== src/Anoncreds/Registry/Schemas.antt =====
-- anoncreds/registry.py: register_schema, get_schema and get_schema_info_by_id. A schema body in the
-- wallet is the JSON object of its record; `str` of a value that is not a text is an argument, and so is
-- whether `for_network` gives the clients or raises (`connected`).
use aca_py_did_kanon.Prelude.{
  Bool, Option, none, some, [], ◌∷◌, Bytes, key_error, type_error, registration_error,
  resolution_error, object_not_found, storage_not_found, Result, ok, err, ◌>>=◌, bytes_eq,
  if◌then◌else◌,
}
use aca_py_did_kanon.Prelude.Hex.{codes}
use aca_py_did_kanon.Prelude.Value.{
  Value, Items, Fields, null, boolean, number, string, array, object, nil, cons, end, field,
}
use aca_py_did_kanon.Web3.{Web3}
use aca_py_did_kanon.Storage.{Storage, Json, parsed, corrupt}
use aca_py_did_kanon.Identifiers.{schema_resource_id}
use aca_py_did_kanon.Contracts.Convert.{raw, text}
use aca_py_did_kanon.Contracts.MerkleState.{Receipt}
use aca_py_did_kanon.Contracts.Transaction.{Node}
use aca_py_did_kanon.Contracts.SchemaRegistry.{SchemaArgs, SchemaTuple}
use aca_py_did_kanon.Contracts.SchemaRegistry.{
  register_schema as send_schema, get_schema as read_schema,
}
use aca_py_did_kanon.Anoncreds.Registry.{
  client_as, data_uri_from_canonical, decode_data_uri, issuer_org_id,
}

-- The schema that is registered.
pub record NewSchema : Type 0 where
  pub issuer_id : Bytes
  pub attr_names : Items
  pub name : Bytes
  pub version : Bytes

-- A schema made from a body, whose values are taken as they are.
pub record AnonCredsSchema : Type 0 where
  pub issuer_id : Value
  pub attr_names : Items
  pub name : Value
  pub version : Bytes

pub record AnonCredsSchemaInfo : Type 0 where
  pub issuer_id : Value
  pub name : Value
  pub version : Bytes

-- `_ACAPY_SCHEMA_CATEGORY`
abbrev pub acapy_schema_category : Bytes
acapy_schema_category = codes "schema"

-- The body of a registration.
unfoldable pub body_of : NewSchema → Fields
body_of s = field (codes "name") (string s.name) (
    field (codes "version") (string s.version) (
      field (codes "attrNames") (array s.attr_names)
        (field (codes "issuerId") (string s.issuer_id) end)))

-- `d[k]`
unfoldable pub item_of : Bytes → Fields → Result Value
item_of k end = err key_error
item_of k (field j v fs) = let rest = item_of k fs in if bytes_eq j k then ok v else rest

-- `list(v)`: the characters of a text, the keys of an object.
unfoldable pub characters : Bytes → Items
characters [] = nil
characters (c ∷ cs) = cons (string (c ∷ [])) (characters cs)

unfoldable pub names : Fields → Items
names end = nil
names (field k v fs) = cons (string k) (names fs)

unfoldable pub list_of : Value → Result Items
unfolding characters names
list_of (array vs) = ok vs
list_of (string s) = ok (characters s)
list_of (object fs) = ok (names fs)
list_of null = err type_error
list_of (boolean b) = err type_error
list_of (number n) = err type_error

-- `except (KeyError, TypeError)`
abbrev pub malformed {ℓ} : {A : Type ℓ} → Result A → Result A
malformed (ok a) = ok a
malformed (err key_error) = err resolution_error
malformed (err type_error) = err resolution_error
malformed (err e) = err e

-- The schema that a body stands for.
unfoldable pub schema_of : (Value → Bytes) → Fields → Result AnonCredsSchema
unfolding item_of list_of
schema_of str body = malformed (
    item_of (codes "issuerId") body >>= λ issuer_id.
    item_of (codes "attrNames") body >>= λ attr_names. list_of attr_names >>= λ items.
    item_of (codes "name") body >>= λ name. item_of (codes "version") body >>= λ version.
    ok (record { issuer_id = issuer_id; attr_names = items; name = name; version = str version }))

-- The id, the body and the transaction of a registration.
unfoldable pub register_schema :
    Web3
    → (Fields → Bytes)
    → Result (Unit {0})
    → Bool
    → Node SchemaArgs
    → NewSchema
    → Result (Bytes × Receipt)
unfolding issuer_org_id body_of data_uri_from_canonical
register_schema w canonical connected has_key node schema =
    let schema_id = schema_resource_id schema.issuer_id schema.name schema.version in
    let bytes = canonical (body_of schema) in
    issuer_org_id schema.issuer_id >>= λ org_id. connected >>= λ u.
    client_as registration_error (
      send_schema has_key node (text org_id) (raw (w.keccak_text schema_id)) (raw (w.keccak bytes))
        (data_uri_from_canonical bytes))
    >>= λ tx. ok (schema_id, tx)

-- The body that the chain has, from the URI of the record.
unfoldable pub body_on_chain : (Bytes → Option Value) → Result (Option SchemaTuple) → Result Fields
unfolding decode_data_uri
body_on_chain loads record_ = client_as resolution_error record_ >>= λ found. elim found [
  | none ↦ err object_not_found
  | some r ↦ elim (decode_data_uri loads r.uri) [
    | none ↦ err resolution_error
    | some end ↦ err resolution_error
    | some (field k v fs) ↦ ok (field k v fs)
  ]
]

module _ {S : Type 0} (st : Storage (Json Fields) S) where
  -- `_load_acapy_schema_body`: a record that is missing or does not parse is None.
  unfoldable pub load_acapy_schema_body : S → Bytes → Result (Option Fields)
  load_acapy_schema_body s schema_id = elim (st.get_record s acapy_schema_category schema_id) [
    | ok (some (parsed body)) ↦ ok (some body)
    | ok (some corrupt) ↦ ok none
    | ok none ↦ ok none
    | err storage_not_found ↦ ok none
    | err e ↦ err e
  ]

  -- `_store_acapy_schema_body`, whose exceptions `get_schema` logs.
  unfoldable pub store_acapy_schema_body : S → Bytes → Fields → S
  store_acapy_schema_body s schema_id body =
      elim (st.add_record s acapy_schema_category schema_id (parsed body)) [
        | ok s' ↦ s'
        | err e ↦ elim (st.update_record s acapy_schema_category schema_id (parsed body)) [
          | ok s' ↦ s'
          | err d ↦ s
        ]
      ]

  -- The body in the wallet, or that of the chain, which is then kept.
  unfoldable pub schema_body :
      Web3
      → (Bytes → Option Value)
      → Result (Unit {0})
      → (Bytes → Result SchemaTuple)
      → S
      → Bytes
      → Result (Fields × S)
  unfolding load_acapy_schema_body store_acapy_schema_body body_on_chain
  schema_body w loads connected view s schema_id = load_acapy_schema_body s schema_id >>= λ local.
      elim local [
        | some body ↦ ok (body, s)
        | none ↦ connected >>= λ u.
            body_on_chain loads (read_schema view (raw (w.keccak_text schema_id))) >>= λ body.
            ok (body, store_acapy_schema_body s schema_id body)
      ]

  unfoldable pub get_schema :
      Web3
      → (Bytes → Option Value)
      → (Value → Bytes)
      → Result (Unit {0})
      → (Bytes → Result SchemaTuple)
      → S
      → Bytes
      → Result (AnonCredsSchema × S)
  unfolding schema_body schema_of
  get_schema w loads str connected view s schema_id =
      schema_body w loads connected view s schema_id >>= λ found.
      schema_of str found.0 >>= λ schema. ok (schema, found.1)

  unfoldable pub get_schema_info_by_id :
      Web3
      → (Bytes → Option Value)
      → (Value → Bytes)
      → Result (Unit {0})
      → (Bytes → Result SchemaTuple)
      → S
      → Bytes
      → Result (AnonCredsSchemaInfo × S)
  unfolding get_schema
  get_schema_info_by_id w loads str connected view s schema_id =
      get_schema w loads str connected view s schema_id >>= λ found. ok (
        record { issuer_id = found.0.issuer_id; name = found.0.name; version = found.0.version },
        found.1,
      )
