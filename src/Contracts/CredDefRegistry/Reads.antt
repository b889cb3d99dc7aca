-- ===== src/Contracts/CredDefRegistry/Reads.antt =====
-- When a credDef counts as registered, and what a registration has sent.
use aca_py_did_kanon.Prelude.{
  ℕ, zero, suc, ◌<◌, ◌≡◌, ◌↔◌, refl, sym, ap, ◌∙◌, subst, ◌⊎◌, inl, inr, Bool, true, Option, none,
  some, arith, Bytes, Error, Result, ok, err, client_error, ◌>>=◌, ok_inj, err_ne_ok, Result-cases,
  >>=-eq-ok,
}
use aca_py_did_kanon.Prelude.Hex.{codes}
use aca_py_did_kanon.Contracts.Convert.{BytesLike, to_bytes, to_bytes32}
use aca_py_did_kanon.Contracts.MerkleState.{Receipt}
use aca_py_did_kanon.Contracts.Transaction.{Node, Transaction}
use aca_py_did_kanon.Contracts.Transaction.Sent.{send-sends}
use aca_py_did_kanon.Contracts.Views.{or_on_revert, or_on_revert_iff, stamped, Reverts}
use aca_py_did_kanon.Contracts.CredDefRegistry.{
  CredDefArgs, CredDefTuple, register_credential_definition, decode_cred_def,
  get_credential_definition,
}

-- The contract answers a record of a credDef that was registered at some time.
abbrev pub Registered : Result CredDefTuple → CredDefTuple → Type 0
Registered answer record' =
    (raw : CredDefTuple) × (answer ≡ ok raw)
    × (0 < raw.created_at)
    × (decode_cred_def raw ≡ record')

-- It reverts, or answers a record with the stamp 0.
abbrev pub Unregistered : Result CredDefTuple → Type 0
Unregistered answer =
    Reverts answer ⊎ ((raw : CredDefTuple) × (answer ≡ ok raw) × (raw.created_at ≡ 0))

-- What the body does with the contract's answer.
abbrev read_record : Result CredDefTuple → Result (Option CredDefTuple)
read_record answer = or_on_revert none (answer >>= λ raw. ok (some raw)) >>= λ raw. elim raw [
  | none ↦ ok none
  | some raw ↦ ok (stamped raw.created_at decode_cred_def raw)
]

stamped-cases :
    (raw : CredDefTuple) (t : ℕ)
    → raw.created_at ≡ t
    → ((raw.created_at ≡ 0) × (stamped t decode_cred_def raw ≡ none))
      ⊎ ((0 < raw.created_at) × (stamped t decode_cred_def raw ≡ some (decode_cred_def raw)))
unfolding stamped
stamped-cases raw zero e = inl (e, refl)
stamped-cases raw (suc t) e = inr (omega arith, refl)

-- What the body gives for each answer of the contract.
read_record_lem :
    (answer : Result CredDefTuple)
    → (Unregistered answer × (read_record answer ≡ ok none))
      ⊎ (((r : CredDefTuple) × Registered answer r × (read_record answer ≡ ok (some r)))
          ⊎ ((Unregistered answer → ⊥)
              × ((r : CredDefTuple) → Registered answer r → ⊥)
              × ((x : Option CredDefTuple) → read_record answer ≡ ok x → ⊥)))
unfolding or_on_revert
read_record_lem (ok raw) = elim (stamped-cases raw raw.created_at refl) [
  | inl (never, e) ↦ inl (inr (raw, refl, never), ap ok e)
  | inr (once, e) ↦ inr (inl (decode_cred_def raw, (raw, refl, once, refl), ap ok e))
]
read_record_lem (err e) =
    elim (Result-cases {T = Option CredDefTuple} (or_on_revert none (err e))) [
      | inl (x, value) ↦ elim ((or_on_revert_iff none (err e) x).0 value) [
        | inl answered ↦ absurd (err_ne_ok answered)
        | inr (reverts, same) ↦ inl (inl reverts, rw (value ∙ ap ok (sym same)) refl)
      ]
      | inr (why, raises) ↦ inr (
          inr (
            λ gone. elim gone [
              | inl reverts ↦ absurd (
                  err_ne_ok
                    (sym raises ∙ (or_on_revert_iff none (err e) none).1 (inr (reverts, refl))))
              | inr (raw, answered, _) ↦ absurd (err_ne_ok answered)
            ],
            λ r there. absurd (err_ne_ok there.1),
            λ x h. nothing why x (sym (rw raises refl) ∙ h),
          ))
    ]
  where
    nothing : (why : Error) (x : Option CredDefTuple) → err why ≡ ok x → ⊥
    nothing why x h = err_ne_ok h

stamp_clash :
    (raw other : CredDefTuple) → raw ≡ other → raw.created_at ≡ 0 → 0 < other.created_at → ⊥
stamp_clash raw other e none_at once =
    let same : raw.created_at ≡ other.created_at = ap CredDefTuple.created_at e in omega arith

exclusive :
    (answer : Result CredDefTuple) (r : CredDefTuple)
    → Unregistered answer
    → Registered answer r
    → ⊥
exclusive (ok raw) r (inl h) there = h
exclusive (ok raw) r (inr (old, e, never)) (new, e', once, d) =
    stamp_clash old new (ok_inj (sym e ∙ e')) never once
exclusive (err why) r gone (new, e', once, d) = err_ne_ok e'

unique :
    (answer : Result CredDefTuple) (r r' : CredDefTuple)
    → Registered answer r
    → Registered answer r'
    → r ≡ r'
unique answer r r' (raw, e, once, d) (raw', e', once', d') =
    sym d ∙ (ap decode_cred_def (ok_inj (sym e ∙ e')) ∙ d')

read_record_iff :
    (answer : Result CredDefTuple)
    → ((read_record answer ≡ ok none) ↔ Unregistered answer)
      × ((r : CredDefTuple) → (read_record answer ≡ ok (some r)) ↔ Registered answer r)
read_record_iff answer = elim (read_record_lem answer) [
  | inl (gone, e) ↦ (
    (λ h. gone, λ h. e),
    λ r. (λ h. absurd (none_ne_some (sym e ∙ h)), λ there. absurd (exclusive answer r gone there)),
  )
  | inr (inl (found, there, e)) ↦ (
    (λ h. absurd (some_ne_none (sym e ∙ h)), λ gone. absurd (exclusive answer found gone there)),
    λ r. (
      λ h. subst (Registered answer) (some_inj (sym e ∙ h)) there,
      λ again. e ∙ ap (λ x. ok (some x)) (unique answer found r there again),
    ),
  )
  | inr (inr (not_gone, not_there, raises)) ↦ (
    (λ h. absurd (raises none h), λ gone. absurd (not_gone gone)),
    λ r. (λ h. absurd (raises (some r) h), λ there. absurd (not_there r there)),
  )
]
  where
    some_inj : {x y : CredDefTuple} → ok (some x) ≡ ok (some y) → x ≡ y
    some_inj h = cc

    none_ne_some : {x : CredDefTuple} → ok none ≡ ok (some x) → ⊥
    none_ne_some h = cc

    some_ne_none : {x : CredDefTuple} → ok (some x) ≡ ok none → ⊥
    some_ne_none h = cc

-- For an id of 32 bytes, a credDef is read as None exactly where the contract reverts or answers a
-- record that was never stamped, and as a record exactly where it answers a stamped one, with its
-- organisation in hex; in all other cases an exception is raised.
pub get_credential_definition_iff :
    (view : Bytes → Result CredDefTuple) (id : BytesLike) (cd : Bytes)
    → to_bytes32 id ≡ ok cd
    → ((get_credential_definition view id ≡ ok none) ↔ Unregistered (view cd))
      × ((r : CredDefTuple)
          → (get_credential_definition view id ≡ ok (some r)) ↔ Registered (view cd) r)
unfolding get_credential_definition
get_credential_definition_iff view id cd h =
    rw (h, get_credential_definition) (read_record_iff (view cd))

-- Where a registration returns, an operator key is configured, the receipt has status 1 and is that of
-- a transaction which calls registerCredentialDefinition with the two ids as 32 bytes, the issuer's key
-- as bytes, and the policy mask, the URI and the coordinates of the Baby Jubjub key as given.
pub register_credential_definition-sends :
    (has_key : Bool) (node : Node CredDefArgs) (cred_def_id schema_id issuer_pub_key : BytesLike)
    (policy_mask : ℕ) (uri : Bytes) (ax ay : ℕ) (receipt : Receipt)
    → register_credential_definition has_key node cred_def_id schema_id issuer_pub_key policy_mask
        uri ax ay
      ≡ ok receipt
    → (has_key ≡ true)
      × (receipt.status ≡ 1)
      × (tx : Transaction CredDefArgs) × (node.send tx ≡ ok receipt)
      × (tx.fn_name ≡ codes "registerCredentialDefinition")
      × (to_bytes32 cred_def_id ≡ ok tx.args.cred_def_id)
      × (to_bytes32 schema_id ≡ ok tx.args.schema_id)
      × (to_bytes issuer_pub_key ≡ ok tx.args.issuer_pub_key)
      × (tx.args.policy_mask ≡ policy_mask)
      × (tx.args.uri ≡ uri)
      × (tx.args.issuer_zk_pub_key_ax ≡ ax)
      × (tx.args.issuer_zk_pub_key_ay ≡ ay)
unfolding register_credential_definition
register_credential_definition-sends has_key node cred_def_id schema_id issuer_pub_key policy_mask
      uri ax ay receipt h =
    let (cd, e1, h1) = >>=-eq-ok (to_bytes32 cred_def_id) _ h in
    let (sid, e2, h2) = >>=-eq-ok (to_bytes32 schema_id) _ h1 in
    let (pk, e3, h3) = >>=-eq-ok (to_bytes issuer_pub_key) _ h2 in
    let (key, status, tx, sent, name, args, _, _, _) =
      send-sends client_error has_key node (codes "registerCredentialDefinition") _ receipt h3 in
    (
      key,
      status,
      tx,
      sent,
      name,
      e1 ∙ ap (λ a. ok (CredDefArgs.cred_def_id a)) (sym args),
      e2 ∙ ap (λ a. ok (CredDefArgs.schema_id a)) (sym args),
      e3 ∙ ap (λ a. ok (CredDefArgs.issuer_pub_key a)) (sym args),
      ap CredDefArgs.policy_mask args,
      ap CredDefArgs.uri args,
      ap CredDefArgs.issuer_zk_pub_key_ax args,
      ap CredDefArgs.issuer_zk_pub_key_ay args,
    )
