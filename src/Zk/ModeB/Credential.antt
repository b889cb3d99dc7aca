-- ===== src/Zk/ModeB/Credential.antt =====
-- zk/mode_b.py: prepare_mode_b_credential.
use aca_py_did_kanon.Prelude.{◌++◌, Bytes}
use aca_py_did_kanon.Prelude.Exec.{Exec, pure, lift, ◌>>=◌}
use aca_py_did_kanon.Prelude.Dict.{Dict}
use aca_py_did_kanon.Prelude.Hex.{codes, to_hex}
use aca_py_did_kanon.Web3.{Web3}
use aca_py_did_kanon.Storage.{Storage, Json}
use aca_py_did_kanon.Contracts.Convert.{BytesLike}
use aca_py_did_kanon.Zk.Poseidon.{Constants}
use aca_py_did_kanon.Zk.BabyJubjub.{Curve}
use aca_py_did_kanon.Zk.IssuerKey.{KeyRecord, KeyWorld, with_private_key}
use aca_py_did_kanon.Zk.Eddsa.{restore_issuer_key, sign_poseidon, encode_zk_signature}
use aca_py_did_kanon.Zk.ModeB.Prepare.{KanonZkCredentialPrep, with_reserved, domain_leaf}

-- The 32 random bytes of the credId are an argument.
module _ {S : Type 0} (st : Storage (Json KeyRecord) S) (w : Web3) (k : Constants) (c : Curve) where
  unfoldable pub prepare_mode_b_credential :
      BytesLike → Dict Bytes → Bytes → Exec (KeyWorld S) KanonZkCredentialPrep
  unfolding domain_leaf
  prepare_mode_b_credential cred_def_id domain_attributes token = do
    let kanon_cred_id = codes "0x" ++ to_hex token
    leaf ← lift (domain_leaf w k cred_def_id domain_attributes kanon_cred_id)
    sig ←
        with_private_key st (restore_issuer_key c) cred_def_id
          (λ key. sign_poseidon c k key.private_key_hex leaf)
    kanon_zk_sig ← lift (encode_zk_signature sig)
    pure (record {
      attributes = with_reserved domain_attributes kanon_cred_id kanon_zk_sig;
      kanon_cred_id = kanon_cred_id;
      kanon_zk_sig = kanon_zk_sig;
    })
