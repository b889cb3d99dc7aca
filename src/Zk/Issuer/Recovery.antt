-- ===== src/Zk/Issuer/Recovery.antt =====
-- The checkpoint after an accepted publication, and what is left when `revoke` raises half-way.
use Prim.Native.Nat.{max}
use mathlib.Core.Path.{ap₂}
use mathlib.Core.List.{append_assoc, append-nil}
use aca_py_did_kanon.Prelude.{
  Result-cases, err_ne_ok, ok_inj, ◌≡◌, refl, sym, ap, subst, ◌∙◌, Bool, true, false, Option, none,
  some, List, [], ◌∷◌, ◌++◌, map, arith, inl, inr, if◌then◌else◌, Bytes, bytes_eq, ok, err,
  zk_issuer_error, Result, Option-cases, ◌≤◌,
}
use aca_py_did_kanon.Prelude.Dict.{Dict, get, pop, get-pop, get-put_self}
use aca_py_did_kanon.Prelude.Hex.{to_hex, from_hex}
use aca_py_did_kanon.Web3.{Web3}
use aca_py_did_kanon.Storage.{Storage, StorageLaws, upsert, get_record-upsert}
use aca_py_did_kanon.Contracts.Convert.{BytesLike, text}
use aca_py_did_kanon.Contracts.MerkleState.{Receipt}
use aca_py_did_kanon.Zk.Poseidon.{Constants}
use aca_py_did_kanon.Zk.Leaf.{cred_def_id_bytes, derive_leaf}
use aca_py_did_kanon.Zk.Issuer.State.{
  IssuerState, Checkpoint, to_dict, checkpoint_record_type, checkpoint_record_id,
}
use aca_py_did_kanon.Zk.Issuer.Canonical.{IsCanonical, from_dict-to_dict}
use aca_py_did_kanon.Zk.Issuer.Sync.{Chain}
use aca_py_did_kanon.Zk.Issuer.Loops.{drop_leaves}
use aca_py_did_kanon.Zk.Issuer.Methods.{
  World, set_state, load_checkpoint, save_checkpoint, get_or_init, settle, revoke_in_state, revoke,
}

-- What a publication leaves, when the storage takes the record: an issuer with the same storage and
-- another cache loads exactly the state that is cached now, with the watermark not below the block of
-- the receipt.
pub settle-load_checkpoint :
    {S : Type 0} (st : Storage Checkpoint S) (chain : Chain) (cd : Bytes) (state : IssuerState)
    (receipt : Receipt) (world : World S) (store : S) (cache : Dict IssuerState)
    → StorageLaws st
    → IsCanonical state.active
    → upsert st world.store checkpoint_record_type (checkpoint_record_id cd) (
        to_dict
          (record state { last_synced_block = max state.last_synced_block receipt.block_number }))
      ≡ ok store
    → (settled : IssuerState) × (get (to_hex cd) ((settle st chain cd state receipt world).1).cache
        ≡ some settled)
      × (load_checkpoint st cd
            (record ((settle st chain cd state receipt world).1) { cache = cache })
          ≡ settled)
      × (settled.active ≡ state.active)
      × (receipt.block_number ≤ settled.last_synced_block)
unfolding settle save_checkpoint load_checkpoint
settle-load_checkpoint st chain cd state receipt world store cache laws c h =
    let settled : IssuerState = record state {
      last_synced_block = max state.last_synced_block receipt.block_number;
    } in
    let key = checkpoint_record_id cd in
    let found =
      get_record-upsert st world.store store checkpoint_record_type key (to_dict settled) laws h in
    (
      settled,
      rw (h, settle, save_checkpoint) (get-put_self (to_hex cd) settled world.cache),
      rw (h, settle, save_checkpoint, found, load_checkpoint, from_dict-to_dict settled c) refl,
      refl,
      omega arith,
    )

-- The set without some leaves.
abbrev pub kept : List Bytes → Dict Bytes → Bytes → Option Bytes
kept [] d k = get k d
kept (l ∷ ls) d k = if bytes_eq (to_hex l) k then none else kept ls d k

if-swap {ℓ} :
    {A : Type ℓ} (b c : Bool) (x y : A)
    → (if b then x else (if c then x else y)) ≡ (if c then x else (if b then x else y))
if-swap true true x y = refl
if-swap true false x y = refl
if-swap false c x y = refl

kept-pop :
    (ls : List Bytes) (j : Bytes) (d : Dict Bytes) (k : Bytes)
    → kept ls (pop j d) k ≡ (if bytes_eq j k then none else kept ls d k)
kept-pop [] j d k = get-pop j k d
kept-pop (l ∷ ls) j d k =
    ap (λ r. if bytes_eq (to_hex l) k then none else r) (kept-pop ls j d k)
    ∙ if-swap (bytes_eq (to_hex l) k) (bytes_eq j k) none (kept ls d k)

-- What the loop of `revoke` has done on the leaves `ls` of the credentials: each is the leaf of its
-- credential, and the set is the one before without them.
record Dropped (w : Web3) (cids : List Bytes) (d d' : Dict Bytes) (ls : List Bytes) : Type 0 where
  leaves : map (λ c. derive_leaf w (text c)) cids ≡ map ok ls
  rest : (k : Bytes) → get k d' ≡ kept ls d k

Dropped-cons :
    (w : Web3) (c : Bytes) (cids : List Bytes) (d d' : Dict Bytes) (l : Bytes) (ls : List Bytes)
    → derive_leaf w (text c) ≡ ok l
    → Dropped w cids (pop (to_hex l) d) d' ls
    → Dropped w (c ∷ cids) d d' (l ∷ ls)
Dropped-cons w c cids d d' l ls el dropped = record {
  leaves = ap₂ (λ x xs. x ∷ xs) el dropped.leaves;
  rest = λ k. dropped.rest k ∙ kept-pop ls (to_hex l) d k;
}

drop_leaves-step :
    (w : Web3) (c : Bytes) (rest : List Bytes) (d : Dict Bytes) (ks ps : List Bytes)
    (l companion_hex companion : Bytes)
    → derive_leaf w (text c) ≡ ok l
    → get (to_hex l) d ≡ some companion_hex
    → from_hex companion_hex ≡ ok companion
    → drop_leaves w (c ∷ rest) d ks ps
      ≡ drop_leaves w rest (pop (to_hex l) d) (ks ++ l ∷ []) (ps ++ companion ∷ [])
unfolding drop_leaves
drop_leaves-step w c rest d ks ps l companion_hex companion el present read =
    rw (el, present, read, drop_leaves) refl

-- A run of the loop that ended, with the leaves that it has collected.
abbrev Ended :
    Web3
    → List Bytes
    → Dict Bytes
    → List Bytes
    → List Bytes
    → Result (List Bytes × List Bytes) × Dict Bytes
    → Type 0
Ended w cids d ks ks' run = (ls : List Bytes) × (ks ++ ls ≡ ks') × Dropped w cids d run.1 ls

drop_leaves-Dropped :
    (w : Web3) (cids : List Bytes) (d : Dict Bytes) (ks ps ks' ps' : List Bytes)
    → (drop_leaves w cids d ks ps).0 ≡ ok (ks', ps')
    → Ended w cids d ks ks' (drop_leaves w cids d ks ps)
unfolding drop_leaves
drop_leaves-Dropped w [] d ks ps ks' ps' h = (
  [],
  append-nil ks ∙ ap (λ (p : List Bytes × List Bytes). p.0) (ok_inj h),
  record { leaves = refl; rest = λ k. refl },
)
drop_leaves-Dropped w (c ∷ cids) d ks ps ks' ps' h = elim (Result-cases (derive_leaf w (text c))) [
  | inr (e, eq) ↦ absurd (err_ne_ok {why = e} (sym (rw (eq, drop_leaves) refl) ∙ h))
  | inl (l, eq) ↦ elim (Option-cases (get (to_hex l) d)) [
    | inl gone ↦
        absurd (err_ne_ok {why = zk_issuer_error} (sym (rw (eq, gone, drop_leaves) refl) ∙ h))
    | inr (companion_hex, present) ↦ elim (Result-cases (from_hex companion_hex)) [
      | inr (e, pe) ↦
          absurd (err_ne_ok {why = e} (sym (rw (eq, present, pe, drop_leaves) refl) ∙ h))
      | inl (companion, pe) ↦
          more l companion eq
            (drop_leaves-Dropped w cids (pop (to_hex l) d) (ks ++ l ∷ []) (ps ++ companion ∷ []) ks'
              ps')
            (drop_leaves-step w c cids d ks ps l companion_hex companion eq present pe)
    ]
  ]
]
  where
    more :
        (l companion : Bytes)
        → derive_leaf w (text c) ≡ ok l
        → ((drop_leaves w cids (pop (to_hex l) d) (ks ++ l ∷ []) (ps ++ companion ∷ [])).0
              ≡ ok (ks', ps')
            → Ended w cids
                (pop (to_hex l) d)
                (ks ++ l ∷ [])
                ks'
                (drop_leaves w cids (pop (to_hex l) d) (ks ++ l ∷ []) (ps ++ companion ∷ [])))
        → drop_leaves w (c ∷ cids) d ks ps
          ≡ drop_leaves w cids (pop (to_hex l) d) (ks ++ l ∷ []) (ps ++ companion ∷ [])
        → Ended w (c ∷ cids) d ks ks' (drop_leaves w (c ∷ cids) d ks ps)
    more l companion eq ih step =
        let (ls, joined, dropped) = ih (ap (λ r. r.0) (sym step) ∙ h) in
        subst (Ended w (c ∷ cids) d ks ks') (sym step) (
          l ∷ ls,
          sym (append_assoc ks (l ∷ []) ls) ∙ joined,
          Dropped-cons w c cids d _ l ls eq dropped,
        )

-- The loop of `revoke` stops at the first credential without an active leaf, with those before it gone.
drop_leaves-stop :
    (w : Web3) (before : List Bytes) (cid : Bytes) (after : List Bytes) (d : Dict Bytes)
    (ks ps : List Bytes) (revoked : List Bytes × List Bytes) (leaf : Bytes)
    → (drop_leaves w before d ks ps).0 ≡ ok revoked
    → derive_leaf w (text cid) ≡ ok leaf
    → get (to_hex leaf) ((drop_leaves w before d ks ps).1) ≡ none
    → drop_leaves w (before ++ cid ∷ after) d ks ps
      ≡ (err zk_issuer_error, (drop_leaves w before d ks ps).1)
unfolding drop_leaves
drop_leaves-stop w [] cid after d ks ps revoked leaf h el absent = rw (el, absent, drop_leaves) refl
drop_leaves-stop w (b ∷ before) cid after d ks ps revoked leaf h el absent =
    elim (Result-cases (derive_leaf w (text b))) [
      | inr (e, eq) ↦ absurd (err_ne_ok {why = e} (sym (rw (eq, drop_leaves) refl) ∙ h))
      | inl (l, eq) ↦ elim (Option-cases (get (to_hex l) d)) [
        | inl gone ↦
            absurd (err_ne_ok {why = zk_issuer_error} (sym (rw (eq, gone, drop_leaves) refl) ∙ h))
        | inr (companion_hex, present) ↦ elim (Result-cases (from_hex companion_hex)) [
          | inr (e, pe) ↦
              absurd (err_ne_ok {why = e} (sym (rw (eq, present, pe, drop_leaves) refl) ∙ h))
          | inl (companion, pe) ↦
              let d' = pop (to_hex l) d in
              let ks' = ks ++ l ∷ [] in
              let ps' = ps ++ companion ∷ [] in
              let step : (rest : List Bytes)
                  → drop_leaves w (b ∷ rest) d ks ps ≡ drop_leaves w rest d' ks' ps' =
                λ rest. rw (eq, present, pe, drop_leaves) refl in
              let stop =
                drop_leaves-stop w before cid after d' ks' ps' revoked leaf
                  (sym (ap (λ r. r.0) (step before)) ∙ h) el
                  (ap (λ r. get (to_hex leaf) r.1) (sym (step before)) ∙ absent) in
              step (before ++ cid ∷ after)
              ∙ stop
              ∙ ap (λ r. (err zk_issuer_error, r.1)) (sym (step before))
        ]
      ]
    ]

module _ {S : Type 0} (st : Storage Checkpoint S) (chain : Chain) (w : Web3) (k : Constants) where
  revoke-nonempty :
      (cred_def_id : BytesLike) (cd cid : Bytes) (before after : List Bytes)
      (world world0 : World S) (state : IssuerState)
      → cred_def_id_bytes cred_def_id ≡ ok cd
      → get_or_init st chain cd world ≡ (ok state, world0)
      → revoke st chain w k cred_def_id (before ++ cid ∷ after) world
        ≡ revoke_in_state st chain w k cd (before ++ cid ∷ after) state world0
  unfolding revoke
  revoke-nonempty cred_def_id cd cid [] after world world0 state hid hget =
      rw (hid, hget, revoke) refl
  revoke-nonempty cred_def_id cd cid (b ∷ before) after world world0 state hid hget =
      rw (hid, hget, revoke) refl

  -- Revoking credentials of which those before `cid` pass the loop, each with its active leaf, while the
  -- leaf of `cid` is not active, or is one of theirs: the issuer's error is raised without a publication; yet
  -- the cached set is left as the one before without exactly the leaves of the earlier credentials, and
  -- nothing else changes.
  pub revoke_partial :
      (cred_def_id : BytesLike) (cd cid : Bytes) (before after : List Bytes)
      (world world0 : World S) (state : IssuerState) (revoked : List Bytes × List Bytes)
      (leaf : Bytes)
      → cred_def_id_bytes cred_def_id ≡ ok cd
      → get_or_init st chain cd world ≡ (ok state, world0)
      → (drop_leaves w before state.active [] []).0 ≡ ok revoked
      → derive_leaf w (text cid) ≡ ok leaf
      → kept revoked.0 state.active (to_hex leaf) ≡ none
      → (active : Dict Bytes) × (revoke st chain w k cred_def_id (before ++ cid ∷ after) world
          ≡ (err zk_issuer_error, set_state (to_hex cd) (record state { active = active }) world0))
        × (map (λ c. derive_leaf w (text c)) before ≡ map ok revoked.0)
        × ((key : Bytes) → get key active ≡ kept revoked.0 state.active key)
  unfolding revoke_in_state
  revoke_partial cred_def_id cd cid before after world world0 state revoked leaf hid hget hd hl
        absent =
      let (ls, joined, dropped) =
        drop_leaves-Dropped w before state.active [] [] revoked.0 revoked.1 hd in
      let rest : (key : Bytes)
          → get key ((drop_leaves w before state.active [] []).1)
            ≡ kept revoked.0 state.active key =
        λ key. dropped.rest key ∙ ap (λ xs. kept xs state.active key) joined in
      (
        (drop_leaves w before state.active [] []).1,
        revoke-nonempty cred_def_id cd cid before after world world0 state hid hget
            ∙ rw
                (
                  drop_leaves-stop w before cid after state.active [] [] revoked leaf hd hl
                      (rest (to_hex leaf) ∙ absent),
                  revoke_in_state,
                )
                refl,
        dropped.leaves ∙ ap (map ok) joined,
        rest,
      )
