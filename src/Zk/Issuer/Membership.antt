-- ===== src/Zk/Issuer/Membership.antt =====
-- The published roots: each active leaf has a proof that the tree's verifier accepts against them.
mod Tests
use aca_py_did_kanon.Prelude.{
  ok_inj, ℕ, zero, suc, replicate, ◌<◌, ◌^◌, ◌≤◌, ◌%◌, ◌≡◌, refl, sym, ap, subst, true, List, [],
  ◌∷◌, arith, length, get_or, Bytes, ok, >>=-eq-ok,
}
use aca_py_did_kanon.Prelude.Dict.{keys, values}
use aca_py_did_kanon.Prelude.Hex.{from_hex}
use aca_py_did_kanon.Web3.{Web3}
use aca_py_did_kanon.Zk.Poseidon.{Constants, bn254_prime}
use aca_py_did_kanon.Zk.Poseidon.Range.{FitsArity}
use aca_py_did_kanon.Zk.MerkleKeccak
use aca_py_did_kanon.Zk.MerklePoseidon
use aca_py_did_kanon.Zk.MerkleKeccak.Paths.{verify-proof_for_index}
use aca_py_did_kanon.Zk.MerklePoseidon.Proofs.{verify-padded_leaf, proof_for_index-length, new-fits}
use aca_py_did_kanon.Zk.Leaf.{felt_to_bytes32}
use aca_py_did_kanon.Zk.Issuer.State.{IssuerState}
use aca_py_did_kanon.Zk.Issuer.Roots.{
  from_hex_all, int16, int16_all, root_leaves, compute_keccak_root, compute_poseidon_root,
}

-- An element-wise conversion that succeeds converts each element.
from_hex_all-get_or :
    (ks bs : List Bytes) (i : ℕ)
    → from_hex_all ks ≡ ok bs
    → i < length ks
    → (i < length bs) × (from_hex (get_or ks i []) ≡ ok (get_or bs i []))
unfolding from_hex_all
from_hex_all-get_or [] bs i h lt = elim lt [ ]
from_hex_all-get_or (k ∷ ks) bs i h lt =
    let (b, eb, h1) = >>=-eq-ok (from_hex k) _ h in
    let (bs', ebs, h2) = >>=-eq-ok (from_hex_all ks) (λ bs'. ok (b ∷ bs')) h1 in
    subst (λ xs. (i < length xs) × (from_hex (get_or (k ∷ ks) i []) ≡ ok (get_or xs i [])))
      (ok_inj h2) (at b bs' i eb (λ j. from_hex_all-get_or ks bs' j ebs) lt)
  where
    at :
        (b : Bytes) (bs' : List Bytes) (i : ℕ)
        → from_hex k ≡ ok b
        → ((j : ℕ)
            → j < length ks
            → (j < length bs') × (from_hex (get_or ks j []) ≡ ok (get_or bs' j [])))
        → i < length (k ∷ ks)
        → (i < length (b ∷ bs')) × (from_hex (get_or (k ∷ ks) i []) ≡ ok (get_or (b ∷ bs') i []))
    at b bs' zero eb tail lt = (omega arith, eb)
    at b bs' (suc i) eb tail lt = let (l, e) = tail i (omega arith) in (omega arith, e)

-- Where the keccak root can be computed, the leaf at each position of the active set has a proof that
-- `verify` accepts against this root.
pub compute_keccak_root_lem :
    (w : Web3) (st : IssuerState) (root : Bytes) (i : ℕ)
    → compute_keccak_root w st ≡ ok root
    → i < length (keys st.active)
    → (leaf : Bytes) × (proof : List Bytes) × (from_hex (get_or (keys st.active) i []) ≡ ok leaf)
      × (MerkleKeccak.verify w.keccak leaf proof root ≡ true)
unfolding compute_keccak_root root_leaves
compute_keccak_root_lem w st root i h lt =
    let (leaves, el, h1) = >>=-eq-ok (root_leaves st) _ h in
    let (t, et, h2) =
      >>=-eq-ok (MerkleKeccak.new w.keccak leaves) (λ t. ok (MerkleKeccak.root t)) h1 in
    let (lt', e) =
      from_hex_all-get_or (keys st.active) leaves i (nonempty (keys st.active) leaves el lt) lt in
    (
      get_or leaves i [],
      MerkleKeccak.proof_for_index t i,
      e,
      subst
          (λ r.
            MerkleKeccak.verify w.keccak (get_or leaves i []) (MerkleKeccak.proof_for_index t i) r
            ≡ true)
          (ok_inj h2) (verify-proof_for_index w.keccak w.length-keccak leaves t i et lt'),
    )
  where
    nonempty :
        (ks leaves : List Bytes)
        → elim ks [ [] ↦ ok (replicate 32 0 ∷ []) | k ∷ ks ↦ from_hex_all (k ∷ ks) ] ≡ ok leaves
        → i < length ks
        → from_hex_all ks ≡ ok leaves
    nonempty [] leaves e lt = elim lt [ ]
    nonempty (k ∷ ks) leaves e lt = e

int16_all-get_or :
    (hs : List Bytes) (xs : List ℕ) (i : ℕ)
    → int16_all hs ≡ ok xs
    → i < length hs
    → int16 (get_or hs i []) ≡ ok (get_or xs i 0)
unfolding int16_all
int16_all-get_or [] xs i h lt = elim lt [ ]
int16_all-get_or (k ∷ hs) xs i h lt =
    let (x, ex, h1) = >>=-eq-ok (int16 k) _ h in
    let (xs', exs, h2) = >>=-eq-ok (int16_all hs) (λ xs'. ok (x ∷ xs')) h1 in
    subst (λ ys. int16 (get_or (k ∷ hs) i []) ≡ ok (get_or ys i 0)) (ok_inj h2)
      (at x xs' i ex (λ j. int16_all-get_or hs xs' j exs) lt)
  where
    at :
        (x : ℕ) (xs' : List ℕ) (i : ℕ)
        → int16 k ≡ ok x
        → ((j : ℕ) → j < length hs → int16 (get_or hs j []) ≡ ok (get_or xs' j 0))
        → i < length (k ∷ hs)
        → int16 (get_or (k ∷ hs) i []) ≡ ok (get_or (x ∷ xs') i 0)
    at x xs' zero ex tail lt = ex
    at x xs' (suc i) ex tail lt = tail i (omega arith)

length-int16_all : (hs : List Bytes) (xs : List ℕ) → int16_all hs ≡ ok xs → length xs ≡ length hs
unfolding int16_all
length-int16_all [] xs h = rw (← ok_inj h) refl
length-int16_all (k ∷ hs) xs h =
    let (x, ex, h1) = >>=-eq-ok (int16 k) _ h in
    let (xs', exs, h2) = >>=-eq-ok (int16_all hs) (λ xs'. ok (x ∷ xs')) h1 in
    rw (← ok_inj h2) (ap suc (length-int16_all hs xs' exs))

lt_of_lt_of_le : {a b c : ℕ} → a < b → b ≤ c → a < c
lt_of_lt_of_le h k = omega arith

-- Where the Poseidon root can be computed, it is a number `top` written as 32 bytes, and the
-- companion at each position of the active set, in the field, has a proof of 26 levels that `verify`
-- accepts against `top`.
pub compute_poseidon_root_lem :
    (k : Constants) (st : IssuerState) (root : Bytes) (i : ℕ)
    → FitsArity k 3
    → compute_poseidon_root k st ≡ ok root
    → i < length (values st.active)
    → (top x : ℕ) × (proof : MerklePoseidon.PoseidonProof) × (root ≡ felt_to_bytes32 top)
      × (length proof.path_elements ≡ 26)
      × (length proof.path_indices ≡ 26)
      × (int16 (get_or (values st.active) i []) ≡ ok x)
      × (MerklePoseidon.verify k (x % bn254_prime) proof top ≡ true)
unfolding compute_poseidon_root
compute_poseidon_root_lem k st root i fits h lt =
    let (felts, ef, h1) = >>=-eq-ok (int16_all (values st.active)) _ h in
    let (t, et, h2) =
      >>=-eq-ok (MerklePoseidon.new k 26 felts)
        (λ t. ok (felt_to_bytes32 (MerklePoseidon.root k t))) h1 in
    let places = new-fits k 26 felts t et in
    let small : i < 2 ^ 26 =
      lt_of_lt_of_le (rw (length-int16_all (values st.active) felts ef) lt) places in
    let (proof, ep, accepted) = verify-padded_leaf k 26 felts t i fits et small in
    let (elements, sides) = proof_for_index-length k 26 felts t i proof et ep in
    (
      MerklePoseidon.root k t,
      get_or felts i 0,
      proof,
      sym (ok_inj h2),
      elements,
      sides,
      int16_all-get_or (values st.active) felts i ef lt,
      accepted,
    )
