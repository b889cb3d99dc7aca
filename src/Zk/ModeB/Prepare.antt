-- ===== src/Zk/ModeB/Prepare.antt =====
-- zk/mode_b.py: the checks and the leaf of a Mode B credential, and cred_id_hash.py.
use aca_py_did_kanon.Prelude.{
  ℕ, Bool, ◌||◌, ◌++◌, length, ◌==◌, Bytes, value_error, Result, ok, ◌>>=◌, ◌>>◌, raise_if,
}
use aca_py_did_kanon.Prelude.Dict.{Dict, has, put}
use aca_py_did_kanon.Prelude.Hex.{codes, to_hex}
use aca_py_did_kanon.Web3.{Web3}
use aca_py_did_kanon.Contracts.Convert.{BytesLike, raw}
use aca_py_did_kanon.Zk.Poseidon.{Constants}
use aca_py_did_kanon.Zk.Leaf.{compute_zk_leaf}
use aca_py_did_kanon.Zk.Attributes.{
  kanon_cred_id_attribute, kanon_zk_sig_attribute, kanon_zk_proof_attribute,
  reserved_attribute_names, encode_attributes_canonical, pad_attrs_to_circuit,
}

-- `kanon_cred_id_hash`, for texts.
unfoldable pub kanon_cred_id_hash : Web3 → Bytes → Result Bytes
kanon_cred_id_hash w cred_id = do
  raise_if (length cred_id == 0) value_error
  ok (w.keccak_text cred_id)

unfoldable pub kanon_cred_id_hash_hex : Web3 → Bytes → Result Bytes
unfolding kanon_cred_id_hash
kanon_cred_id_hash_hex w cred_id = do
  digest ← kanon_cred_id_hash w cred_id
  ok (codes "0x" ++ to_hex digest)

pub record KanonZkCredentialPrep : Type 0 where
  pub attributes : Dict Bytes
  pub kanon_cred_id : Bytes
  pub kanon_zk_sig : Bytes

-- `reserved_present`, as a condition.
abbrev pub has_reserved : Dict Bytes → Bool
has_reserved attributes =
    has kanon_cred_id_attribute attributes
    || has kanon_zk_sig_attribute attributes
    || has kanon_zk_proof_attribute attributes

-- The leaf of a set of attributes under a credId.
unfoldable pub leaf_of : Web3 → Constants → BytesLike → Dict Bytes → Bytes → Result ℕ
leaf_of w k cred_def_id attributes kanon_cred_id = do
  domain_felts ← encode_attributes_canonical w attributes reserved_attribute_names
  padded ← pad_attrs_to_circuit domain_felts
  compute_zk_leaf k cred_def_id (raw (w.keccak_text kanon_cred_id)) padded

-- The attributes with the two that the issuer puts in.
abbrev pub with_reserved : Dict Bytes → Bytes → Bytes → Dict Bytes
with_reserved attributes cred_id sig =
    put kanon_zk_sig_attribute sig (put kanon_cred_id_attribute cred_id attributes)

-- The checks and the leaf: before the key is read.
unfoldable pub domain_leaf : Web3 → Constants → BytesLike → Dict Bytes → Bytes → Result ℕ
unfolding leaf_of
domain_leaf w k cred_def_id domain_attributes kanon_cred_id = do
  raise_if (has_reserved domain_attributes) value_error
  leaf_of w k cred_def_id domain_attributes kanon_cred_id
