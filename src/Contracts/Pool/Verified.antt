-- ===== src/Contracts/Pool/Verified.antt =====
-- What a set of clients that was built has been checked for.
use aca_py_did_kanon.Prelude.{
  ℕ, ◌≡◌, refl, ap, ◌∙◌, subst, Bool, true, false, not, Option, none, some, arith, Bytes, Result,
  ok, err, registries_error, ◌>>=◌, raise_if, Ensures, returned, after, Ensures-ok, >>=-eq-ok,
}
use aca_py_did_kanon.Prelude.Hex.{codes}
use aca_py_did_kanon.Prelude.Text.{ℤ, pos}
use aca_py_did_kanon.Config.{KanonNetwork}
use aca_py_did_kanon.Contracts.MerkleState.Batch.{unless-raised}
use aca_py_did_kanon.Contracts.Pool.{
  Provider, Client, new_client, KanonRegistries, address_picker, no_code, is_chain, reachable,
  verify_chain, new_registries,
}

reachable-ok {ℓ} : {A : Type ℓ} (r : Result A) (a : A) → reachable r ≡ ok a → r ≡ ok a
unfolding reachable
reachable-ok (ok x) a h = h
reachable-ok (err e) a h = cc

-- The node answers that there is code at an address, and the configured chain if there is one.
pub record IsVerified (w3 : Provider) (net : KanonNetwork) (did : Client) : Type 0 where
  pub code : Bytes
  pub has_code : w3.get_code did.address ≡ ok code
  pub is_code : no_code code ≡ false
  pub on_chain : (expected : ℕ) → net.chain_id ≡ some (pos expected) → w3.chain_id ≡ ok expected

is_chain-pos : (expected n : ℕ) → is_chain (pos expected) n ≡ true → n ≡ expected
is_chain-pos expected n h = ground arith

not-false : (b : Bool) → not b ≡ false → b ≡ true
not-false true h = refl
not-false false h = cc

pub some_inj {ℓ} : {A : Type ℓ} {x y : A} → some x ≡ some y → x ≡ y
some_inj h = cc

chain_checked :
    (w3 : Provider) (expected : ℤ) (u : Unit {0})
    → (reachable w3.chain_id >>= λ on_chain.
        raise_if (not (is_chain expected on_chain)) registries_error)
      ≡ ok u
    → (n : ℕ) → expected ≡ pos n
    → w3.chain_id ≡ ok n
chain_checked w3 expected u h n e =
    let (on_chain, e1, e2) =
      >>=-eq-ok (reachable w3.chain_id)
        (λ on_chain. raise_if (not (is_chain expected on_chain)) registries_error) h in
    let ours : is_chain (pos n) on_chain ≡ true =
      subst (λ z. is_chain z on_chain ≡ true) e
        (not-false _ (unless-raised (not (is_chain expected on_chain)) registries_error u e2)) in
    reachable-ok w3.chain_id on_chain e1 ∙ ap ok (is_chain-pos n on_chain ours)

verify_chain-IsVerified :
    (w3 : Provider) (net : KanonNetwork) (did : Client) (u : Unit {0})
    → verify_chain w3 net did ≡ ok u
    → IsVerified w3 net did
unfolding verify_chain
verify_chain-IsVerified w3 net did u h =
    let (code, e1, h1) = >>=-eq-ok (reachable (w3.get_code did.address)) _ h in
    let (u1, e2, h2) = >>=-eq-ok (raise_if (no_code code) registries_error) _ h1 in
    record {
      code = code;
      has_code = reachable-ok (w3.get_code did.address) code e1;
      is_code = unless-raised (no_code code) registries_error u1 e2;
      on_chain =
          λ expected e. chain_checked w3 (pos expected) u (configured expected e h2) expected refl;
    }
  where
    checked : Option ℤ → Result (Unit {0})
    checked none = ok tt
    checked (some expected) = reachable w3.chain_id >>= λ on_chain.
        raise_if (not (is_chain expected on_chain)) registries_error

    configured :
        (expected : ℕ)
        → net.chain_id ≡ some (pos expected)
        → checked net.chain_id ≡ ok u
        → checked (some (pos expected)) ≡ ok u
    configured expected e h = subst (λ o. checked o ≡ ok u) e h

-- Where the clients of a network are built, the node has answered code that is not empty at the address
-- of the DID registry's client, and the configured chain id if there is one; and the clients are those
-- of that network.
pub new_registries-IsVerified :
    (w3 : Provider) (net : KanonNetwork) (reg : KanonRegistries)
    → new_registries w3 net ≡ ok reg
    → IsVerified w3 net reg.did × (reg.net ≡ net)
unfolding new_registries
new_registries-IsVerified w3 net reg h = Ensures-ok built h
  where
    built : Ensures (λ r. IsVerified w3 net r.did × (r.net ≡ net)) (new_registries w3 net)
    built = after (address_picker w3 net) _ λ addr _. after (addr (codes "org_registry")) _ λ a1 _.
        after (new_client w3 a1 net.operator_key) _ λ c1 _.
          after (addr (codes "did_registry")) _ λ a2 _.
            after (new_client w3 a2 net.operator_key) _ λ did _.
              after (addr (codes "schema_registry")) _ λ a3 _.
                after (new_client w3 a3 net.operator_key) _ λ c3 _.
                  after (addr (codes "cred_def_registry")) _ λ a4 _.
                    after (new_client w3 a4 net.operator_key) _ λ c4 _.
                      after (addr (codes "merkle_state_registry")) _ λ a5 _.
                        after (new_client w3 a5 net.operator_key) _ λ c5 _.
                          after (addr (codes "status_registry")) _ λ a6 _.
                            after (new_client w3 a6 net.operator_key) _ λ c6 _.
                              after (verify_chain w3 net did) _ λ u checked.
                                returned _ (verify_chain-IsVerified w3 net did u checked, refl)
