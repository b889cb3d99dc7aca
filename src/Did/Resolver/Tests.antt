-- ===== src/Did/Resolver/Tests.antt =====
-- Resolution of a document with two methods.
use aca_py_did_kanon.Prelude.{
  ◌≡◌, refl, false, some, [], ◌∷◌, ◌++◌, replicate, bytes_eq, Bytes, Result, ok,
}
use aca_py_did_kanon.Prelude.Dict.{get, put}
use aca_py_did_kanon.Prelude.Decimal.{to_dec, dec_digits}
use aca_py_did_kanon.Prelude.Hex.{codes, to_hex, hex_char}
use aca_py_did_kanon.Identifiers.{
  ParsedKanonDid, org_did, parse_kanon_did, parse_subject, parse_rest, take_handle, take_hex,
  strip_prefix, take_group, span, is_end,
}
use aca_py_did_kanon.Contracts.Views.{or_on_revert}
use aca_py_did_kanon.Contracts.DidRegistry.{DidDocument, decode_doc, resolve_did}
use aca_py_did_kanon.Did.Resolver.{
  W3cDocument, base58, hex, active_document, fragments, key_fragment, methods, public_key_of, refs,
  resolve, service_fragment, services_of, to_w3c, vm_type_of,
}
use aca_py_did_kanon.Did.Resolver.Resolved.{IsClosed, resolve-IsClosed}

abbrev did : Bytes
did = codes "did:kanon:org:0x" ++ replicate 64 b'a'

-- The second reference names no method.
abbrev doc : DidDocument
doc = record {
  controller = [];
  org_id = 5 ∷ [];
  scope = 1;
  verification_methods =
      record { id = 1 ∷ []; vm_type = 0; public_key = 7 ∷ [] }
      ∷ record { id = 2 ∷ []; vm_type = 1; public_key = 8 ∷ [] }
      ∷ [];
  authentication = (2 ∷ []) ∷ (3 ∷ []) ∷ [];
  assertion_method = [];
  capability_invocation = [];
  capability_delegation = [];
  key_agreement = [];
  services = [];
  doc_hash = [];
  created_at = 1;
  updated_at = 1;
  deactivated = false;
}

abbrev resolved : W3cDocument
resolved = record {
  id = did;
  controller = did;
  verification_method =
      record {
        id = did ++ codes "#key-1";
        method_type = codes "Ed25519VerificationKey2020";
        controller = did;
        public_key = base58 (7 ∷ []);
      }
      ∷ record {
        id = did ++ codes "#key-2";
        method_type = codes "EcdsaSecp256k1VerificationKey2019";
        controller = did;
        public_key = hex (codes "08");
      }
      ∷ [];
  authentication = (did ++ codes "#key-2") ∷ [];
  assertion_method = [];
  capability_invocation = [];
  capability_delegation = [];
  key_agreement = [];
  service = [];
}

resolves : resolve (λ b. b) (ok (λ d. ok doc)) did ≡ ok resolved
unfolding resolve parse_kanon_did org_did parse_subject parse_rest take_handle take_hex strip_prefix
    take_group span is_end active_document to_w3c fragments key_fragment methods public_key_of refs
    services_of service_fragment vm_type_of resolve_did or_on_revert decode_doc get put bytes_eq
    to_dec dec_digits to_hex hex_char
resolves = refl

resolve-IsClosed_example :
    (parsed : ParsedKanonDid) × (parse_kanon_did did ≡ some parsed)
    × (view : Bytes → Result DidDocument) × (ok (λ (d : Bytes). ok doc) ≡ ok view)
    × (d : DidDocument) × (resolve_did view parsed.did ≡ ok (some d))
    × (d.deactivated ≡ false)
    × (resolved ≡ to_w3c (λ b. b) parsed.did d)
    × IsClosed resolved
resolve-IsClosed_example = resolve-IsClosed (λ b. b) (ok (λ d. ok doc)) did resolved resolves
