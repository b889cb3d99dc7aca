-- ===== src/Contracts/StatusRegistry.antt =====
-- contracts/status_registry.py: the status of a credential by credDef and hash of its id.
pub mod Status
pub mod Sent
mod Tests
use aca_py_did_kanon.Prelude.{
  ℕ, zero, suc, Bool, List, [], ◌∷◌, Bytes, Result, ok, err, status_error, value_error, ◌>>=◌,
}
use aca_py_did_kanon.Prelude.Hex.{codes}
use aca_py_did_kanon.Contracts.Convert.{BytesLike, to_bytes32}
use aca_py_did_kanon.Contracts.MerkleState.{Receipt}
use aca_py_did_kanon.Contracts.Transaction.{Node, send, read}

pub data StatusEnum : Type 0 where
  unknown : StatusEnum
  issued : StatusEnum
  revoked : StatusEnum

-- `StatusEnum(raw)`
unfoldable pub status_of : ℕ → Result StatusEnum
status_of zero = ok unknown
status_of (suc zero) = ok issued
status_of (suc (suc zero)) = ok revoked
status_of (suc (suc (suc n))) = err value_error

-- The two words of a read, for the view that answers them.
unfoldable pub with_words {ℓ} :
    {A : Type ℓ} → (Bytes → Bytes → Result A) → BytesLike → BytesLike → Result A
with_words call cred_def_id cred_id_hash = do
  cd ← to_bytes32 cred_def_id
  ch ← to_bytes32 cred_id_hash
  call cd ch

unfoldable pub get_status : (Bytes → Bytes → Result ℕ) → BytesLike → BytesLike → Result StatusEnum
unfolding with_words status_of read
get_status view cred_def_id cred_id_hash = do
  number ← with_words (λ cd ch. read status_error (view cd ch)) cred_def_id cred_id_hash
  status_of number

unfoldable pub is_revoked : (Bytes → Bytes → Result Bool) → BytesLike → BytesLike → Result Bool
unfolding with_words read
is_revoked view = with_words (λ cd ch. read status_error (view cd ch))

unfoldable pub is_active : (Bytes → Bytes → Result Bool) → BytesLike → BytesLike → Result Bool
unfolding with_words read
is_active view = with_words (λ cd ch. read status_error (view cd ch))

unfoldable pub issue_credential :
    Bool → Node (Bytes × Bytes) → BytesLike → BytesLike → Result Receipt
unfolding with_words
issue_credential has_key node =
    with_words (λ cd ch. send status_error has_key node (codes "issueCredential") (cd, ch))

unfoldable pub revoke_credential :
    Bool → Node (Bytes × Bytes) → BytesLike → BytesLike → Result Receipt
unfolding with_words
revoke_credential has_key node =
    with_words (λ cd ch. send status_error has_key node (codes "revokeCredential") (cd, ch))
