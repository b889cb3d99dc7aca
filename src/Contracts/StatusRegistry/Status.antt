-- ===== src/Contracts/StatusRegistry/Status.antt =====
-- What the status reads and writes say.
use aca_py_did_kanon.Prelude.{
  ℕ, zero, suc, ◌≡◌, refl, sym, ap, subst, ◌∙◌, ◌↔◌, Bool, Bytes, Result, ok, err, status_error,
  ◌>>=◌, >>=-eq-ok, ok_inj,
}
use aca_py_did_kanon.Prelude.Hex.{codes}
use aca_py_did_kanon.Contracts.Convert.{BytesLike, to_bytes32}
use aca_py_did_kanon.Contracts.MerkleState.{Receipt}
use aca_py_did_kanon.Contracts.Transaction.{Transaction, Node, send, read, caught}
use aca_py_did_kanon.Contracts.Transaction.Sent.{send-sends}
use aca_py_did_kanon.Contracts.StatusRegistry.{
  StatusEnum, unknown, issued, revoked, status_of, with_words, get_status, issue_credential,
  revoke_credential,
}

-- The number of a status on chain.
abbrev pub number_of : StatusEnum → ℕ
number_of unknown = 0
number_of issued = 1
number_of revoked = 2

status_of-number_of : (s : StatusEnum) → status_of (number_of s) ≡ ok s
unfolding status_of
status_of-number_of unknown = refl
status_of-number_of issued = refl
status_of-number_of revoked = refl

number_of-status_of : (n : ℕ) (s : StatusEnum) → status_of n ≡ ok s → n ≡ number_of s
unfolding status_of
number_of-status_of zero s h = subst (λ t. 0 ≡ number_of t) (ok_inj h) refl
number_of-status_of (suc zero) s h = subst (λ t. 1 ≡ number_of t) (ok_inj h) refl
number_of-status_of (suc (suc zero)) s h = subst (λ t. 2 ≡ number_of t) (ok_inj h) refl
number_of-status_of (suc (suc (suc n))) s h = cc

read-ok {ℓ} : {A : Type ℓ} (r : Result A) (a : A) → read status_error r ≡ ok a → r ≡ ok a
unfolding read caught
read-ok (ok x) a h = h
read-ok (err e) a h = cc

-- For identifiers of 32 bytes, `get_status` returns a status exactly where the contract answers its
-- number, so a number past 2 is never taken for a status.
pub get_status_iff :
    (view : Bytes → Bytes → Result ℕ) (cred_def_id cred_id_hash : BytesLike) (cd ch : Bytes)
    (s : StatusEnum)
    → to_bytes32 cred_def_id ≡ ok cd
    → to_bytes32 cred_id_hash ≡ ok ch
    → (get_status view cred_def_id cred_id_hash ≡ ok s) ↔ (view cd ch ≡ ok (number_of s))
unfolding get_status with_words read caught
get_status_iff view cred_def_id cred_id_hash cd ch s ecd ech = (
  λ h.
      let step : get_status view cred_def_id cred_id_hash
          ≡ (read status_error (view cd ch) >>= status_of) =
        rw (ecd, ech, get_status, with_words) refl in
      let (n, en, es) = >>=-eq-ok (read status_error (view cd ch)) status_of (sym step ∙ h) in
      read-ok (view cd ch) n en ∙ ap ok (number_of-status_of n s es),
  λ h. rw (ecd, ech, h, get_status, with_words, read, caught) (status_of-number_of s),
)

-- Where issuing or revoking a credential returns, the registry's function of that name was called with
-- the two words in a transaction whose receipt has status 1.
pub write_lem :
    (has_key : Bool) (node : Node (Bytes × Bytes)) (cred_def_id cred_id_hash : BytesLike)
    (cd ch : Bytes) (receipt : Receipt)
    → to_bytes32 cred_def_id ≡ ok cd
    → to_bytes32 cred_id_hash ≡ ok ch
    → (issue_credential has_key node cred_def_id cred_id_hash ≡ ok receipt
        → (receipt.status ≡ 1)
          × (tx : Transaction (Bytes × Bytes)) × (node.send tx ≡ ok receipt)
          × (tx.fn_name ≡ codes "issueCredential")
          × (tx.args ≡ (cd, ch)))
      × (revoke_credential has_key node cred_def_id cred_id_hash ≡ ok receipt
          → (receipt.status ≡ 1)
            × (tx : Transaction (Bytes × Bytes)) × (node.send tx ≡ ok receipt)
            × (tx.fn_name ≡ codes "revokeCredential")
            × (tx.args ≡ (cd, ch)))
unfolding issue_credential revoke_credential with_words
write_lem has_key node cred_def_id cred_id_hash cd ch receipt ecd ech = (
  λ h.
      let sent = sym (rw (ecd, ech, issue_credential, with_words) refl) ∙ h in
      sent_as (codes "issueCredential") sent,
  λ h.
      let sent = sym (rw (ecd, ech, revoke_credential, with_words) refl) ∙ h in
      sent_as (codes "revokeCredential") sent,
)
  where
    sent_as :
        (name : Bytes)
        → send status_error has_key node name (cd, ch) ≡ ok receipt
        → (receipt.status ≡ 1)
          × (tx : Transaction (Bytes × Bytes)) × (node.send tx ≡ ok receipt)
          × (tx.fn_name ≡ name)
          × (tx.args ≡ (cd, ch))
    sent_as name h =
        let (key, one, tx, e, en, ea, nonce, chain, tip) =
          send-sends status_error has_key node name (cd, ch) receipt h in
        (one, tx, e, en, ea)
