-- ===== src/Did/Resolver.antt =====
-- did/resolver.py: a W3C document from the registry's struct. The id of a verification method on chain is
-- a hash; the document names a method by its position.
pub mod Resolved
mod Tests
use aca_py_did_kanon.Prelude.{
  ℕ, suc, Bool, Option, none, some, List, [], ◌∷◌, ◌++◌, ◌==◌, if◌then◌else◌, get_or, Bytes, Error,
  client_error, value_error, config_error, did_not_found, resolver_error, Result, ok, err, ◌>>=◌,
}
use aca_py_did_kanon.Prelude.Hex.{codes, to_hex}
use aca_py_did_kanon.Prelude.Decimal.{to_dec}
use aca_py_did_kanon.Prelude.Dict.{Dict, get, put}
use aca_py_did_kanon.Identifiers.{parse_kanon_did}
use aca_py_did_kanon.Contracts.DidRegistry.{DidDocument, VerificationMethod, Service, resolve_did}

-- `_VM_TYPES`, and the type of a method of a further kind.
abbrev pub vm_types : List Bytes
vm_types =
    codes "Ed25519VerificationKey2020"
    ∷ codes "EcdsaSecp256k1VerificationKey2019"
    ∷ codes "Bls12381G2Key2020"
    ∷ codes "JsonWebKey2020"
    ∷ []

unfoldable pub vm_type_of : ℕ → Bytes
vm_type_of n = get_or vm_types n (codes "JsonWebKey2020")

-- `publicKeyBase58` or `publicKeyHex`.
pub data PublicKey : Type 0 where
  base58 : Bytes → PublicKey
  hex : Bytes → PublicKey

pub record Method : Type 0 where
  pub id : Bytes
  pub method_type : Bytes
  pub controller : Bytes
  pub public_key : PublicKey

pub record W3cService : Type 0 where
  pub id : Bytes
  pub service_type : Bytes
  pub service_endpoint : Bytes

-- The document; a relationship or a list of services that is empty is left out of the JSON.
pub record W3cDocument : Type 0 where
  pub id : Bytes
  pub controller : Bytes
  pub verification_method : List Method
  pub authentication : List Bytes
  pub assertion_method : List Bytes
  pub capability_invocation : List Bytes
  pub capability_delegation : List Bytes
  pub key_agreement : List Bytes
  pub service : List W3cService

-- `f"{did}#key-{i + 1}"` and `f"{did}#service-{i + 1}"`
unfoldable pub key_fragment : Bytes → ℕ → Bytes
key_fragment did i = did ++ (codes "#key-" ++ to_dec (suc i))

unfoldable pub service_fragment : Bytes → ℕ → Bytes
service_fragment did i = did ++ (codes "#service-" ++ to_dec (suc i))

-- The fragments by id, from position `i` on: a later method with the same id takes its place.
unfoldable pub fragments : Bytes → ℕ → List VerificationMethod → Dict Bytes → Dict Bytes
unfolding key_fragment
fragments did i [] ids = ids
fragments did i (vm ∷ vms) ids = fragments did (suc i) vms (put vm.id (key_fragment did i) ids)

-- The `except` clauses: a `RegistryClientError` is a failure of the resolver, a `ValueError` says that
-- there is no such DID, and any other exception goes on.
abbrev pub resolution_error_of : Error → Error
resolution_error_of client_error = resolver_error
resolution_error_of value_error = did_not_found
resolution_error_of config_error = did_not_found
resolution_error_of e = e

abbrev pub read_caught {ℓ} : {A : Type ℓ} → Result A → Result A
read_caught (ok a) = ok a
read_caught (err e) = err (resolution_error_of e)

-- `bytes_to_b58` of ACA-Py is an argument.
module _ (bytes_to_b58 : Bytes → Bytes) where
  unfoldable pub public_key_of : VerificationMethod → PublicKey
  public_key_of vm =
      if vm.vm_type == 0 then base58 (bytes_to_b58 vm.public_key) else hex (to_hex vm.public_key)

  unfoldable pub methods : Bytes → ℕ → List VerificationMethod → List Method
  unfolding key_fragment vm_type_of public_key_of
  methods did i [] = []
  methods did i (vm ∷ vms) =
      record {
        id = key_fragment did i;
        method_type = vm_type_of vm.vm_type;
        controller = did;
        public_key = public_key_of vm;
      }
      ∷ methods did (suc i) vms

  -- The references that name a method of the document.
  unfoldable pub refs : Dict Bytes → List Bytes → List Bytes
  refs ids [] = []
  refs ids (r ∷ rs) = elim (get r ids) [
    | none ↦ refs ids rs
    | some fragment ↦ fragment ∷ refs ids rs
  ]

  unfoldable pub services_of : Bytes → ℕ → List Service → List W3cService
  unfolding service_fragment
  services_of did i [] = []
  services_of did i (svc ∷ svcs) =
      record {
        id = service_fragment did i;
        service_type = svc.service_type;
        service_endpoint = svc.endpoint;
      }
      ∷ services_of did (suc i) svcs

  -- `_to_w3c`
  unfoldable pub to_w3c : Bytes → DidDocument → W3cDocument
  unfolding fragments methods refs services_of
  to_w3c did doc =
      let ids = fragments did 0 doc.verification_methods [] in
      record {
        id = did;
        controller = did;
        verification_method = methods did 0 doc.verification_methods;
        authentication = refs ids doc.authentication;
        assertion_method = refs ids doc.assertion_method;
        capability_invocation = refs ids doc.capability_invocation;
        capability_delegation = refs ids doc.capability_delegation;
        key_agreement = refs ids doc.key_agreement;
        service = services_of did 0 doc.services;
      }

  -- A document that is missing or deactivated is not found.
  unfoldable pub active_document : Bytes → Option DidDocument → Result W3cDocument
  unfolding to_w3c
  active_document did none = err did_not_found
  active_document did (some doc) =
      if doc.deactivated then err did_not_found else ok (to_w3c did doc)

  -- `_resolve`, for the registry's view of the pool's network, whose set-up may raise.
  unfoldable pub resolve : Result (Bytes → Result DidDocument) → Bytes → Result W3cDocument
  unfolding active_document
  resolve registry did = elim (parse_kanon_did did) [
    | none ↦ err did_not_found
    | some parsed ↦ read_caught (registry >>= λ view. resolve_did view parsed.did) >>= λ doc.
        active_document parsed.did doc
  ]
