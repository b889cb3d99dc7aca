-- ===== src/Identifiers/Tests.antt =====
-- An organisation's resources, and texts that are no did:kanon.
use aca_py_did_kanon.Prelude.{◌≡◌, refl, none, some, ◌++◌, replicate, All-replicate, Bytes}
use aca_py_did_kanon.Prelude.Hex.{codes}
use aca_py_did_kanon.Identifiers.{
  org, did_of, issuer_did_of, schema_resource_id, cred_def_resource_id, parse_kanon_did,
  parse_subject, strip_prefix,
}
use aca_py_did_kanon.Identifiers.Resources.{IsHex, issuer_did_of-resource}

abbrev digits : Bytes
digits = replicate 64 b'a'

other_method : parse_kanon_did (codes "did:web:x") ≡ none
unfolding parse_kanon_did parse_subject strip_prefix
other_method = refl

issuer_did_of-resource_example :
    (issuer_did_of (schema_resource_id (did_of org (codes "0x" ++ digits)) (codes "n") (codes "1"))
      ≡ some (did_of org (codes "0x" ++ digits)))
    × (issuer_did_of
          (cred_def_resource_id (did_of org (codes "0x" ++ digits)) (codes "n") (codes "1"))
        ≡ some (did_of org (codes "0x" ++ digits)))
issuer_did_of-resource_example =
    issuer_did_of-resource org digits (codes "n") (codes "1") (All-replicate IsHex 64 b'a' refl)
      refl (refl, tt) (refl, tt)
