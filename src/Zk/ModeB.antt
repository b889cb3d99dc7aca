-- ===== src/Zk/ModeB.antt =====
-- zk/mode_b_verify.py: the check of a `kanonZkProof` attribute, zk/mode_b.py: the attributes of a Mode B
-- credential, and cred_id_hash.py. The ABI decoder of eth_abi is an argument.
pub mod Verified
pub mod Prepare
pub mod Credential
mod Tests
use aca_py_did_kanon.Prelude.{
  ℕ, ◌+◌, ◌*◌, ◌%◌, Bool, true, false, not, ◌&&◌, ◌||◌, Option, none, some, List, [], ◌∷◌, ◌==◌,
  if◌then◌else◌, length, get_or, drop, map, Bytes, Error, value_error, Result, ok, err, ◌>>=◌, ◌>>◌,
  raise_if,
}
use aca_py_did_kanon.Prelude.Hex.{codes, from_hex, lower, starts_with}
use aca_py_did_kanon.Prelude.Words.{from_be}
use aca_py_did_kanon.Contracts.Convert.{BytesLike, raw}
use aca_py_did_kanon.Contracts.CredDefRegistry.{IssuerZkPubKey, get_issuer_zk_pub_key}
use aca_py_did_kanon.Contracts.MerkleState.Reads.{verify_zk_membership}
use aca_py_did_kanon.Zk.Poseidon.{bn254_prime}
use aca_py_did_kanon.Zk.Eddsa.Base64.{b64decode}

-- `except Exception: raise ValueError`
abbrev pub as_value_error {ℓ} : {A : Type ℓ} → Result A → Result A
as_value_error (ok a) = ok a
as_value_error (err e) = err value_error

-- Each public signal is a word.
unfoldable pub check_signals : List Bytes → Result (Unit {0})
check_signals [] = ok tt
check_signals (s ∷ ss) = do raise_if (not (length s == 32)) value_error; check_signals ss

-- `_decode_kanon_zk_proof_attr`
unfoldable pub decode_kanon_zk_proof_attr :
    (Bytes → Result (Bytes × List Bytes)) → Bytes → Result (Bytes × List Bytes)
unfolding check_signals
decode_kanon_zk_proof_attr abi_decode value = do
  buf ← as_value_error (b64decode value)
  (proof_bytes, public_signals) ← as_value_error (abi_decode buf)
  raise_if (length proof_bytes == 0) value_error
  raise_if (not (length public_signals == 7)) value_error
  check_signals public_signals
  ok (proof_bytes, public_signals)

-- `_to_bytes32_credef_id`
unfoldable pub to_bytes32_credef_id : Bytes → Result Bytes
unfolding starts_with lower
to_bytes32_credef_id cred_def_id_hex =
    let s =
      if starts_with (codes "0x") (lower cred_def_id_hex)
      then drop 2 cred_def_id_hex
      else cred_def_id_hex in
    do raise_if (not (length s == 64)) value_error; from_hex s

-- The dict `checks`, and the verdict.
pub record Checks : Type 0 where
  pub cred_def_binding : Bool
  pub issuer_key_on_chain : Bool
  pub issuer_key_binding : Bool
  pub root_and_proof : Bool

pub record Verdict : Type 0 where
  pub verified : Bool
  pub checks : Checks

abbrev no_checks : Checks
no_checks = record {
  cred_def_binding = false;
  issuer_key_on_chain = false;
  issuer_key_binding = false;
  root_and_proof = false;
}

-- `int.from_bytes(public_signals[i], "big")`
abbrev pub signal : List Bytes → ℕ → ℕ
signal public_signals i = from_be (get_or public_signals i [])

-- The tests of an issuer key, each one the end where it fails: whether it is set, and its coordinates.
abbrev pub key_verdict : Bool → Bool → Bool → Checks → (Checks → Verdict) → Verdict
key_verdict false ax ay checks rest = record { verified = false; checks = checks }
key_verdict true false ay checks rest = record {
  verified = false;
  checks = record checks { issuer_key_on_chain = true };
}
key_verdict true true false checks rest = record {
  verified = false;
  checks = record checks { issuer_key_on_chain = true };
}
key_verdict true true true checks rest =
    rest (record checks { issuer_key_on_chain = true; issuer_key_binding = true })

-- The last check: an exception of the view is a failure of the check.
abbrev pub membership_verdict : Result Bool → Checks → Verdict
membership_verdict (ok chain_ok) checks = record {
  verified = chain_ok;
  checks = record checks { root_and_proof = chain_ok };
}
membership_verdict (err e) checks = record { verified = false; checks = checks }

module _ (abi_decode : Bytes → Result (Bytes × List Bytes))
    (key_view : Bytes → Result IssuerZkPubKey)
    (membership_view : Bytes → Bytes → List Bytes → Result Bool) where
  -- The checks of the issuer key and of the proof, where the credDef's binding holds.
  unfoldable pub verify_key : Bytes → Bytes → List Bytes → Checks → Option IssuerZkPubKey → Verdict
  verify_key cd proof_bytes public_signals checks none = record {
    verified = false;
    checks = checks;
  }
  verify_key cd proof_bytes public_signals checks (some key) =
      key_verdict key.is_set (signal public_signals 3 == key.ax) (signal public_signals 4 == key.ay)
        checks
        (membership_verdict (
          verify_zk_membership membership_view (raw cd) (raw proof_bytes) (map raw public_signals)))

  -- What follows the binding to the credDef.
  unfoldable pub verify_bound : Bool → Bytes → Bytes × List Bytes → Result Verdict
  unfolding verify_key
  verify_bound false cd proof = ok (record { verified = false; checks = no_checks })
  verify_bound true cd (proof_bytes, public_signals) = do
    issuer_key ← get_issuer_zk_pub_key key_view (raw cd)
    ok (
        verify_key cd proof_bytes public_signals (record no_checks { cred_def_binding = true })
          issuer_key)

  unfoldable pub verify_mode_b_proof : Bytes → Bytes → Result Verdict
  unfolding to_bytes32_credef_id decode_kanon_zk_proof_attr verify_bound
  verify_mode_b_proof cred_def_id_hex kanon_zk_proof_b64 = do
    cd ← to_bytes32_credef_id cred_def_id_hex
    proof ← decode_kanon_zk_proof_attr abi_decode kanon_zk_proof_b64
    verify_bound (signal proof.1 1 == from_be cd % bn254_prime) cd proof
