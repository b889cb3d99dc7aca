-- ===== src/Contracts/MerkleState/Batch.antt =====
-- What `batch_update` sends.
use mathlib.Core.Path.{ap₂}
use aca_py_did_kanon.Prelude.{
  ok_inj, ℕ, ◌≡◌, refl, sym, ap, subst, ◌∙◌, Bool, true, false, not, List, [], ◌∷◌, map, arith,
  ◌==◌, length, Bytes, Error, Result, ok, err, merkle_error, raise_if, >>=-eq-ok, All, suc,
}
use aca_py_did_kanon.Contracts.Convert.{BytesLike, to_bytes32, to_bytes32_all, length-to_bytes32}
use aca_py_did_kanon.Contracts.MerkleState.{Receipt, BatchUpdate, batch_sent, batch_update}

abbrev pub Has32 : Bytes → Type 0
Has32 b = length b ≡ 32

to_bytes32_all_lem :
    (vs : List BytesLike) (bs : List Bytes)
    → to_bytes32_all vs ≡ ok bs
    → (length bs ≡ length vs) × All Has32 bs
unfolding to_bytes32_all
to_bytes32_all_lem [] bs h = subst (λ xs. (length xs ≡ 0) × All Has32 xs) (ok_inj h) (refl, tt)
to_bytes32_all_lem (v ∷ vs) bs h =
    let (b, eb, h1) = >>=-eq-ok (to_bytes32 v) _ h in
    let (rest, er, h2) = >>=-eq-ok (to_bytes32_all vs) (λ xs. ok (b ∷ xs)) h1 in
    let (l, a) = to_bytes32_all_lem vs rest er in
    subst (λ xs. (length xs ≡ length (v ∷ vs)) × All Has32 xs) (ok_inj h2)
      (ap suc l, (length-to_bytes32 v b eb, a))

to_bytes32_all-map :
    (vs : List BytesLike) (bs : List Bytes)
    → to_bytes32_all vs ≡ ok bs
    → map to_bytes32 vs ≡ map ok bs
unfolding to_bytes32_all
to_bytes32_all-map [] bs h = ap (map ok) (ok_inj h)
to_bytes32_all-map (v ∷ vs) bs h =
    let (b, eb, h1) = >>=-eq-ok (to_bytes32 v) _ h in
    let (rest, er, h2) = >>=-eq-ok (to_bytes32_all vs) (λ xs. ok (b ∷ xs)) h1 in
    ap₂ (λ x xs. x ∷ xs) eb (to_bytes32_all-map vs rest er) ∙ ap (map ok) (ok_inj h2)

pub unless-raised : (b : Bool) (e : Error) (u : Unit {0}) → raise_if b e ≡ ok u → b ≡ false
unless-raised true e u h = cc
unless-raised false e u h = refl

batch_sent-ok :
    (r : Result Receipt) (receipt : Receipt) → batch_sent r ≡ ok receipt → r ≡ ok receipt
unfolding batch_sent
batch_sent-ok (ok r) receipt h = h
batch_sent-ok (err e) receipt h = cc

same_length : (m n : ℕ) → not (m == n) ≡ false → m ≡ n
same_length m n h = ground arith

-- The arguments that the contract gets are those of the call, each converted and in its place.
pub record Carries (call : BatchUpdate BytesLike) (sent : BatchUpdate Bytes) : Type 0 where
  pub cred_def_id : to_bytes32 call.cred_def_id ≡ ok sent.cred_def_id
  pub added_keccak : map to_bytes32 call.added_keccak ≡ map ok sent.added_keccak
  pub added_poseidon : map to_bytes32 call.added_poseidon ≡ map ok sent.added_poseidon
  pub revoked_keccak : map to_bytes32 call.revoked_keccak ≡ map ok sent.revoked_keccak
  pub revoked_poseidon : map to_bytes32 call.revoked_poseidon ≡ map ok sent.revoked_poseidon
  pub root_keccak : to_bytes32 call.new_root_keccak ≡ ok sent.new_root_keccak
  pub root_poseidon : to_bytes32 call.new_root_poseidon ≡ ok sent.new_root_poseidon

-- The arguments that the contract gets: words of 32 bytes, in lists of equal length.
pub record IsSendable (call : BatchUpdate Bytes) : Type 0 where
  pub cred_def_id_32 : Has32 call.cred_def_id
  pub added : length call.added_keccak ≡ length call.added_poseidon
  pub revoked : length call.revoked_keccak ≡ length call.revoked_poseidon
  pub added_keccak_32 : All Has32 call.added_keccak
  pub added_poseidon_32 : All Has32 call.added_poseidon
  pub revoked_keccak_32 : All Has32 call.revoked_keccak
  pub revoked_poseidon_32 : All Has32 call.revoked_poseidon
  pub root_keccak_32 : Has32 call.new_root_keccak
  pub root_poseidon_32 : Has32 call.new_root_poseidon

-- Where `batch_update` returns a receipt, an operator key is configured and the receipt is that of a
-- transaction with the arguments of the call, each in its place, of 32 bytes each, in added and in
-- revoked lists of equal length.
pub batch_update-sends :
    (has_key : Bool) (send : BatchUpdate Bytes → Result Receipt) (call : BatchUpdate BytesLike)
    (receipt : Receipt)
    → batch_update has_key send call ≡ ok receipt
    → (has_key ≡ true)
      × (sent : BatchUpdate Bytes) × (send sent ≡ ok receipt)
      × Carries call sent
      × IsSendable sent
unfolding batch_update
batch_update-sends has_key send call receipt h =
    let (u1, e1, h1) = >>=-eq-ok (raise_if (not has_key) merkle_error) _ h in
    let (u2, e2, h2) =
      >>=-eq-ok
        (raise_if (not (length call.added_keccak == length call.added_poseidon)) merkle_error) _
        h1 in
    let (u3, e3, h3) =
      >>=-eq-ok
        (raise_if (not (length call.revoked_keccak == length call.revoked_poseidon)) merkle_error) _
        h2 in
    let (cd, e4, h4) = >>=-eq-ok (to_bytes32 call.cred_def_id) _ h3 in
    let (added_k, e5, h5) = >>=-eq-ok (to_bytes32_all call.added_keccak) _ h4 in
    let (added_p, e6, h6) = >>=-eq-ok (to_bytes32_all call.added_poseidon) _ h5 in
    let (revoked_k, e7, h7) = >>=-eq-ok (to_bytes32_all call.revoked_keccak) _ h6 in
    let (revoked_p, e8, h8) = >>=-eq-ok (to_bytes32_all call.revoked_poseidon) _ h7 in
    let (rk, e9, h9) = >>=-eq-ok (to_bytes32 call.new_root_keccak) _ h8 in
    let (rp, e10, h10) = >>=-eq-ok (to_bytes32 call.new_root_poseidon) _ h9 in
    let sent : BatchUpdate Bytes = record {
      cred_def_id = cd;
      added_keccak = added_k;
      added_poseidon = added_p;
      revoked_keccak = revoked_k;
      revoked_poseidon = revoked_p;
      new_root_keccak = rk;
      new_root_poseidon = rp;
    } in
    let (lak, aak) = to_bytes32_all_lem call.added_keccak added_k e5 in
    let (lap, aap) = to_bytes32_all_lem call.added_poseidon added_p e6 in
    let (lrk, ark) = to_bytes32_all_lem call.revoked_keccak revoked_k e7 in
    let (lrp, arp) = to_bytes32_all_lem call.revoked_poseidon revoked_p e8 in
    (
      key has_key (unless-raised (not has_key) merkle_error u1 e1),
      sent,
      batch_sent-ok (send sent) receipt h10,
      record {
        cred_def_id = e4;
        added_keccak = to_bytes32_all-map call.added_keccak added_k e5;
        added_poseidon = to_bytes32_all-map call.added_poseidon added_p e6;
        revoked_keccak = to_bytes32_all-map call.revoked_keccak revoked_k e7;
        revoked_poseidon = to_bytes32_all-map call.revoked_poseidon revoked_p e8;
        root_keccak = e9;
        root_poseidon = e10;
      },
      record {
        cred_def_id_32 = length-to_bytes32 call.cred_def_id cd e4;
        added = lak ∙ same_length _ _ (unless-raised _ merkle_error u2 e2) ∙ sym lap;
        revoked = lrk ∙ same_length _ _ (unless-raised _ merkle_error u3 e3) ∙ sym lrp;
        added_keccak_32 = aak;
        added_poseidon_32 = aap;
        revoked_keccak_32 = ark;
        revoked_poseidon_32 = arp;
        root_keccak_32 = length-to_bytes32 call.new_root_keccak rk e9;
        root_poseidon_32 = length-to_bytes32 call.new_root_poseidon rp e10;
      },
    )
  where
    key : (b : Bool) → not b ≡ false → b ≡ true
    key true h = refl
    key false h = cc
