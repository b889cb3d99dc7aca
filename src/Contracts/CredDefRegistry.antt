-- ===== src/Contracts/CredDefRegistry.antt =====
-- contracts/cred_def_registry.py, `KanonCredDefRegistry`: registration and the views. What the
-- contract answers to a view is the argument `view`.
pub mod Reads
pub mod Sent
mod Tests
use aca_py_did_kanon.Prelude.{
  ℕ, Bool, false, Option, none, some, ◌++◌, Bytes, Result, ok, err, client_error, ◌>>=◌,
}
use aca_py_did_kanon.Prelude.Hex.{codes, to_hex}
use aca_py_did_kanon.Contracts.Convert.{BytesLike, to_bytes, to_bytes32}
use aca_py_did_kanon.Contracts.MerkleState.{Receipt}
use aca_py_did_kanon.Contracts.Transaction.{Node, send}
use aca_py_did_kanon.Contracts.Views.{or_on_revert, stamped}

-- The bits of `policyMask`.
abbrev pub tier_one_time : ℕ
tier_one_time = 1

abbrev pub tier_zk_snark : ℕ
tier_zk_snark = 2

abbrev pub tier_all : ℕ
tier_all = 3

-- The arguments of `registerCredentialDefinition`.
pub record CredDefArgs : Type 0 where
  pub cred_def_id : Bytes
  pub schema_id : Bytes
  pub issuer_pub_key : Bytes
  pub policy_mask : ℕ
  pub uri : Bytes
  pub issuer_zk_pub_key_ax : ℕ
  pub issuer_zk_pub_key_ay : ℕ

unfoldable pub register_credential_definition :
    Bool → Node CredDefArgs → BytesLike → BytesLike → BytesLike → ℕ → Bytes → ℕ → ℕ → Result Receipt
register_credential_definition has_key node cred_def_id schema_id issuer_pub_key policy_mask uri ax
      ay =
    do
      cd ← to_bytes32 cred_def_id
      sid ← to_bytes32 schema_id
      pk ← to_bytes issuer_pub_key
      send client_error has_key node (codes "registerCredentialDefinition") (record {
        cred_def_id = cd;
        schema_id = sid;
        issuer_pub_key = pk;
        policy_mask = policy_mask;
        uri = uri;
        issuer_zk_pub_key_ax = ax;
        issuer_zk_pub_key_ay = ay;
      })

-- The tuple that `getCredentialDefinition` answers, and the dict made of it.
pub record CredDefTuple : Type 0 where
  pub schema_id : Bytes
  pub issuer_org : Bytes
  pub issuer_pub_key : Bytes
  pub policy_mask : ℕ
  pub created_at : ℕ
  pub deprecated : Bool
  pub uri : Bytes

unfoldable pub decode_cred_def : CredDefTuple → CredDefTuple
decode_cred_def raw = record raw { issuer_org = codes "0x" ++ to_hex raw.issuer_org }

-- None if the view reverts or the credDef was never registered.
unfoldable pub get_credential_definition :
    (Bytes → Result CredDefTuple) → BytesLike → Result (Option CredDefTuple)
unfolding or_on_revert stamped
get_credential_definition view cred_def_id = do
  cd ← to_bytes32 cred_def_id
  raw ← or_on_revert none (do raw ← view cd; ok (some raw))
  elim raw [ none ↦ ok none | some raw ↦ ok (stamped raw.created_at decode_cred_def raw) ]

unfoldable pub exists : (Bytes → Result Bool) → BytesLike → Result Bool
unfolding or_on_revert
exists view cred_def_id = do cd ← to_bytes32 cred_def_id; or_on_revert false (view cd)

unfoldable pub is_active : (Bytes → Result Bool) → BytesLike → Result Bool
unfolding or_on_revert
is_active view cred_def_id = do cd ← to_bytes32 cred_def_id; or_on_revert false (view cd)

unfoldable pub supports_tier : (Bytes → ℕ → Result Bool) → BytesLike → ℕ → Result Bool
unfolding or_on_revert
supports_tier view cred_def_id tier = do
  cd ← to_bytes32 cred_def_id
  or_on_revert false (view cd tier)

-- The dict `{"ax", "ay", "set"}`.
pub record IssuerZkPubKey : Type 0 where
  pub ax : ℕ
  pub ay : ℕ
  pub is_set : Bool

unfoldable pub get_issuer_zk_pub_key :
    (Bytes → Result IssuerZkPubKey) → BytesLike → Result (Option IssuerZkPubKey)
unfolding or_on_revert
get_issuer_zk_pub_key view cred_def_id = do
  cd ← to_bytes32 cred_def_id
  or_on_revert none (do raw ← view cd; ok (some raw))
