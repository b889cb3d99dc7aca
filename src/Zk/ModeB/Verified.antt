-- ===== src/Zk/ModeB/Verified.antt =====
-- zk/mode_b_verify.py: what a positive verdict says.
use mathlib.Core.Path.{ap₂}
use aca_py_did_kanon.Prelude.{
  ℕ, ◌%◌, ◌≡◌, refl, sym, ap, ◌∙◌, Bool, true, false, not, inl, inr, Option, none, some, List, [],
  ◌∷◌, ◌==◌, map, arith, Bytes, Result, ok, err, ok_inj, err_ne_ok, ◌>>=◌, >>=-eq-ok, raise_if,
  length, value_error, contract_logic,
}
use aca_py_did_kanon.Prelude.Words.{from_be}
use aca_py_did_kanon.Contracts.Convert.{raw, to_bytes, to_bytes32, to_bytes32_all}
use aca_py_did_kanon.Contracts.Views.{or_on_revert_iff}
use aca_py_did_kanon.Contracts.CredDefRegistry.{IssuerZkPubKey, get_issuer_zk_pub_key}
use aca_py_did_kanon.Contracts.MerkleState.Reads.{viewed, verify_zk_membership}
use aca_py_did_kanon.Zk.Poseidon.{bn254_prime}
use aca_py_did_kanon.Zk.ModeB.{
  decode_kanon_zk_proof_attr, to_bytes32_credef_id, Checks, Verdict, signal, key_verdict,
  membership_verdict, verify_key, verify_bound, verify_mode_b_proof,
}

-- Words that are bytes stay what they are.
to_bytes32-raw : (b c : Bytes) → to_bytes32 (raw b) ≡ ok c → c ≡ b
unfolding to_bytes32 to_bytes
to_bytes32-raw b c h =
    let (_, _, e) = >>=-eq-ok (raise_if (not (length b == 32)) value_error) _ h in sym (ok_inj e)

to_bytes32_all-raw : (bs cs : List Bytes) → to_bytes32_all (map raw bs) ≡ ok cs → cs ≡ bs
unfolding to_bytes32_all
to_bytes32_all-raw [] cs h = sym (ok_inj h)
to_bytes32_all-raw (b ∷ bs) cs h =
    let (c, e, h1) = >>=-eq-ok (to_bytes32 (raw b)) _ h in
    let (rest, e1, h2) = >>=-eq-ok (to_bytes32_all (map raw bs)) _ h1 in
    sym (ok_inj h2) ∙ ap₂ ◌∷◌ (to_bytes32-raw b c e) (to_bytes32_all-raw bs rest e1)

viewed-true : (r : Result Bool) → viewed r ≡ ok true → r ≡ ok true
unfolding viewed
viewed-true (ok b) h = h
viewed-true (err contract_logic) h = absurd (false-true (ok_inj h))
  where
    false-true : false ≡ true → ⊥
    false-true h = cc
viewed-true (err e) h = absurd (err_ne_ok h)

-- A membership that the client confirms was confirmed by the contract for these very bytes.
membership_view-true :
    (view : Bytes → Bytes → List Bytes → Result Bool) (cd pb : Bytes) (signals : List Bytes)
    → verify_zk_membership view (raw cd) (raw pb) (map raw signals) ≡ ok true
    → view cd pb signals ≡ ok true
unfolding verify_zk_membership to_bytes
membership_view-true view cd pb signals h =
    let (cd', e, h1) = >>=-eq-ok (to_bytes32 (raw cd)) _ h in
    let (ss, e1, h2) = >>=-eq-ok (to_bytes32_all (map raw signals)) _ h1 in
    ap₂ (λ c s. view c pb s) (sym (to_bytes32-raw cd cd' e))
      (sym (to_bytes32_all-raw signals ss e1))
    ∙ viewed-true (view cd' pb ss) h2

key_view-ok :
    (view : Bytes → Result IssuerZkPubKey) (cd : Bytes) (key : IssuerZkPubKey)
    → get_issuer_zk_pub_key view (raw cd) ≡ ok (some key)
    → view cd ≡ ok key
unfolding get_issuer_zk_pub_key
key_view-ok view cd key h =
    let (cd', e, h1) = >>=-eq-ok (to_bytes32 (raw cd)) _ h in
    elim ((or_on_revert_iff none (view cd' >>= λ raw. ok (some raw)) (some key)).0 h1) [
      | inl answered ↦
          let (k, e1, h2) = >>=-eq-ok (view cd') _ answered in
          ap view (sym (to_bytes32-raw cd cd' e)) ∙ (e1 ∙ ap ok (some_inj (ok_inj h2)))
      | inr r ↦ absurd (none_ne_some r.1)
    ]
  where
    some_inj : {a b : IssuerZkPubKey} → some a ≡ some b → a ≡ b
    some_inj h = cc

    none_ne_some : {a : IssuerZkPubKey} → none ≡ some a → ⊥
    none_ne_some h = cc

-- What a positive verdict says of a credDef, a proof and its public signals.
pub record IsBound (key_view : Bytes → Result IssuerZkPubKey)
    (membership_view : Bytes → Bytes → List Bytes → Result Bool) (cd proof_bytes : Bytes)
    (public_signals : List Bytes) : Type 0 where
  pub key : IssuerZkPubKey
  pub of_cred_def : signal public_signals 1 ≡ from_be cd % bn254_prime
  pub on_chain : key_view cd ≡ ok key
  pub is_set : key.is_set ≡ true
  pub ax : signal public_signals 3 ≡ key.ax
  pub ay : signal public_signals 4 ≡ key.ay
  pub confirmed : membership_view cd proof_bytes public_signals ≡ ok true

same_number : (a b : ℕ) → (a == b) ≡ true → a ≡ b
same_number a b h = ground arith

membership_verdict-true :
    (r : Result Bool) (checks : Checks)
    → (membership_verdict r checks).verified ≡ true
    → r ≡ ok true
membership_verdict-true (ok b) checks h = ap ok h
membership_verdict-true (err e) checks h = absurd (no h)
  where
    no : false ≡ true → ⊥
    no h = cc

not_false : false ≡ true → ⊥
not_false h = cc

key_verdict-true :
    (set ax ay : Bool) (checks : Checks) (rest : Checks → Verdict)
    → (key_verdict set ax ay checks rest).verified ≡ true
    → (set ≡ true)
      × (ax ≡ true)
      × (ay ≡ true)
      × (checks' : Checks) × ((rest checks').verified ≡ true)
key_verdict-true false ax ay checks rest h = absurd (not_false h)
key_verdict-true true false ay checks rest h = absurd (not_false h)
key_verdict-true true true false checks rest h = absurd (not_false h)
key_verdict-true true true true checks rest h = (refl, refl, refl, _, h)

module _ (abi_decode : Bytes → Result (Bytes × List Bytes))
    (key_view : Bytes → Result IssuerZkPubKey)
    (membership_view : Bytes → Bytes → List Bytes → Result Bool) where
  verify_key-true :
      (cd proof_bytes : Bytes) (public_signals : List Bytes) (checks : Checks)
      (key : Option IssuerZkPubKey)
      → signal public_signals 1 ≡ from_be cd % bn254_prime
      → get_issuer_zk_pub_key key_view (raw cd) ≡ ok key
      → (verify_key abi_decode key_view membership_view cd proof_bytes public_signals checks
          key).verified
        ≡ true
      → IsBound key_view membership_view cd proof_bytes public_signals
  unfolding verify_key
  verify_key-true cd proof_bytes public_signals checks none of_cred_def read h =
      absurd (not_false h)
  verify_key-true cd proof_bytes public_signals checks (some key) of_cred_def read h =
      let (set, ax, ay, checks', confirmed) =
        key_verdict-true key.is_set (signal public_signals 3 == key.ax)
          (signal public_signals 4 == key.ay) checks _ h in
      record {
        key = key;
        of_cred_def = of_cred_def;
        on_chain = key_view-ok key_view cd key read;
        is_set = set;
        ax = same_number (signal public_signals 3) key.ax ax;
        ay = same_number (signal public_signals 4) key.ay ay;
        confirmed =
            membership_view-true membership_view cd proof_bytes public_signals
              (membership_verdict-true _ checks' confirmed);
      }

  verify_bound-true :
      (bound : Bool) (cd : Bytes) (proof : Bytes × List Bytes) (v : Verdict)
      → (bound ≡ true → signal proof.1 1 ≡ from_be cd % bn254_prime)
      → verify_bound abi_decode key_view membership_view bound cd proof ≡ ok v
      → v.verified ≡ true
      → IsBound key_view membership_view cd proof.0 proof.1
  unfolding verify_bound
  verify_bound-true false cd proof v means run positive =
      absurd (not_false (ap (λ (w : Verdict). w.verified) (ok_inj run) ∙ positive))
  verify_bound-true true cd (proof_bytes, public_signals) v means run positive =
      let (key, e, h) = >>=-eq-ok (get_issuer_zk_pub_key key_view (raw cd)) _ run in
      verify_key-true cd proof_bytes public_signals _ key (means refl) e
        (ap (λ (w : Verdict). w.verified) (ok_inj h) ∙ positive)

  -- A positive verdict is for a credDef id of 32 bytes in hex and a proof that decodes to public signals
  -- which name this credDef, an issuer key that the contract has set for it and whose coordinates the
  -- signals name, and a membership that the contract confirms for exactly this proof and these signals.
  pub verify_mode_b_proof-IsBound :
      (cred_def_id_hex kanon_zk_proof_b64 : Bytes) (v : Verdict)
      → verify_mode_b_proof abi_decode key_view membership_view cred_def_id_hex kanon_zk_proof_b64
        ≡ ok v
      → v.verified ≡ true
      → (cd : Bytes) × (to_bytes32_credef_id cred_def_id_hex ≡ ok cd)
        × (proof : Bytes × List Bytes) × (decode_kanon_zk_proof_attr abi_decode kanon_zk_proof_b64
            ≡ ok proof)
        × IsBound key_view membership_view cd proof.0 proof.1
  unfolding verify_mode_b_proof
  verify_mode_b_proof-IsBound cred_def_id_hex kanon_zk_proof_b64 v run positive =
      let (cd, e, h1) = >>=-eq-ok (to_bytes32_credef_id cred_def_id_hex) _ run in
      let (proof, e1, h2) =
        >>=-eq-ok (decode_kanon_zk_proof_attr abi_decode kanon_zk_proof_b64) _ h1 in
      (
        cd,
        e,
        proof,
        e1,
        verify_bound-true (signal proof.1 1 == from_be cd % bn254_prime) cd proof v
            (same_number (signal proof.1 1) (from_be cd % bn254_prime)) h2 positive,
      )
