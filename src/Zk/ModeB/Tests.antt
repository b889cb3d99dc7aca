-- ===== src/Zk/ModeB/Tests.antt =====
-- Verdicts on a proof, and a prepared credential on the small curve.
use aca_py_did_kanon.Prelude.{
  ℕ, ◌≡◌, refl, Bool, true, List, [], ◌∷◌, ◌++◌, replicate, Bytes, Result, ok, some,
}
use aca_py_did_kanon.Prelude.Hex.{
  codes, from_hex, lower, lower_char, starts_with, is_space, hex_digit, to_hex,
}
use aca_py_did_kanon.Prelude.Words.{from_be, from_be_acc}
use aca_py_did_kanon.Prelude.Dict.{Dict, keys as dict_keys}
use aca_py_did_kanon.Storage.{Storage, Json, parsed}
use aca_py_did_kanon.Contracts.Convert.{to_bytes, to_bytes32, to_bytes32_all}
use aca_py_did_kanon.Contracts.Views.{or_on_revert}
use aca_py_did_kanon.Contracts.CredDefRegistry.{IssuerZkPubKey, get_issuer_zk_pub_key}
use aca_py_did_kanon.Contracts.MerkleState.Reads.{viewed, verify_zk_membership}
use aca_py_did_kanon.Zk.Eddsa.Base64.{b64decode, b64_digit, decode_from}
use aca_py_did_kanon.Zk.ModeB.{
  decode_kanon_zk_proof_attr, to_bytes32_credef_id, check_signals, Verdict, verify_key,
  verify_bound, verify_mode_b_proof,
}
use aca_py_did_kanon.Zk.Poseidon.{rounds as poseidon_rounds}
use aca_py_did_kanon.Zk.Blake1.{rounds}
use aca_py_did_kanon.Zk.IssuerKey.{KeyRecord, KeyWorld}
use aca_py_did_kanon.Zk.ModeB.Prepare.{KanonZkCredentialPrep, with_reserved}
use aca_py_did_kanon.Zk.ModeB.Verified.{IsBound, verify_mode_b_proof-IsBound}

abbrev word : ℕ → Bytes
word n = replicate 31 0 ++ n ∷ []

abbrev signals : List Bytes
signals = word 9 ∷ word 5 ∷ word 0 ∷ word 6 ∷ word 7 ∷ word 0 ∷ word 0 ∷ []

-- A decoder that knows one text.
abbrev abi : Bytes → Result (Bytes × List Bytes)
abi b = ok (b, signals)

abbrev key : Bytes → Result IssuerZkPubKey
key cd = ok (record { ax = 6; ay = 7; is_set = true })

abbrev contract : Bytes → Bytes → List Bytes → Result Bool
contract cd pb ss = ok true

abbrev id_hex : Bytes
id_hex = replicate 63 b'0' ++ b'5' ∷ []

abbrev verdict : Verdict
verdict = record {
  verified = true;
  checks = record {
    cred_def_binding = true;
    issuer_key_on_chain = true;
    issuer_key_binding = true;
    root_and_proof = true;
  };
}

verifies : verify_mode_b_proof abi key contract id_hex (codes "AAAA") ≡ ok verdict
unfolding verify_mode_b_proof verify_bound verify_key decode_kanon_zk_proof_attr check_signals
    to_bytes32_credef_id b64decode b64_digit decode_from from_hex lower lower_char starts_with
    is_space hex_digit from_be from_be_acc to_bytes to_bytes32 to_bytes32_all or_on_revert
    get_issuer_zk_pub_key viewed verify_zk_membership
verifies = refl

verify_mode_b_proof-IsBound_example :
    (cd : Bytes) × (to_bytes32_credef_id id_hex ≡ ok cd)
    × (proof : Bytes × List Bytes) × (decode_kanon_zk_proof_attr abi (codes "AAAA") ≡ ok proof)
    × IsBound key contract cd proof.0 proof.1
verify_mode_b_proof-IsBound_example =
    verify_mode_b_proof-IsBound abi key contract id_hex (codes "AAAA") verdict verifies refl

-- A storage that holds the key of every credDef.
abbrev keys : Storage (Json KeyRecord) ℕ
keys = record {
  get_record = λ s t i. ok (
      some (
        parsed (record {
          private_key_hex = some (codes "0x" ++ replicate 64 b'1');
          ax = some (codes "20");
          ay = some (codes "18");
        })));
  update_record = λ s t i v. ok s;
  add_record = λ s t i v. ok s;
}

abbrev world : KeyWorld ℕ
world = record { provision_locks = []; public_cache = []; store = 0 }

abbrev domain : Dict Bytes
domain = (codes "name", codes "Alice") ∷ []

abbrev cred_id : Bytes
cred_id = codes "0x" ++ to_hex (replicate 32 1)

abbrev sig : Bytes
sig =
    codes
      "AAAAAAAAAAAAAAAAAAAAAAAAAAAAAAAAAAAAAAAAAAkAAAAAAAAAAAAAAAAAAAAAAAAAAAAAAAAAAAAAAAAAEgAAAAAAAAAAAAAAAAAAAAAAAAAAAAAAAAAAAAAAAAAA"

abbrev prep : KanonZkCredentialPrep
prep = record {
  attributes = with_reserved domain cred_id sig;
  kanon_cred_id = cred_id;
  kanon_zk_sig = sig;
}
