-- ===== src/Zk/Issuer/Invariant.antt =====
-- Every cached set is canonical, whatever the storage and the chain answer.
pub mod Methods
use Prim.Native.Nat.{max}
use aca_py_did_kanon.Prelude.{
  Result-cases, ok_inj, err_ne_ok, ℕ, ◌≡◌, refl, sym, ap, subst, ◌∙◌, Bool, true, false, Option,
  none, some, List, [], ◌∷◌, ◌++◌, arith, Bool-cases, Option-cases, inl, inr, ◌⊎◌, Bytes, bytes_eq,
  bytes_eq_iff, Error, Result, ok, err, map, if◌then◌else◌, >>=-eq-ok,
}
use aca_py_did_kanon.Prelude.Exec.{Exec, continue}
use aca_py_did_kanon.Prelude.Dict.{Dict, get, has, put, pop, get-put, get-pop, get-put_self}
use aca_py_did_kanon.Prelude.Hex.{to_hex, from_hex, lower, lower-to_hex}
use aca_py_did_kanon.Web3.{Web3}
use aca_py_did_kanon.Storage.{Storage, StorageLaws, upsert, get_record-upsert}
use aca_py_did_kanon.Contracts.Convert.{BytesLike, raw, text}
use aca_py_did_kanon.Contracts.MerkleState.{
  Receipt, BatchUpdate, batch_update, get_leaf_events, LeafEvent,
}
use aca_py_did_kanon.Zk.Poseidon.{Constants}
use aca_py_did_kanon.Zk.Leaf.{cred_def_id_bytes, derive_leaf}
use aca_py_did_kanon.Zk.Issuer.State.{
  IssuerState, fresh, Checkpoint, to_dict, from_dict, replay, checkpoint_record_type,
  checkpoint_record_id,
}
use aca_py_did_kanon.Zk.Issuer.Canonical.{
  IsLower, IsCanonical, put-IsCanonical, pop-IsCanonical, replay-IsCanonical, from_dict-IsCanonical,
  from_dict-to_dict,
}
use aca_py_did_kanon.Zk.Issuer.Sync.{Chain, replay_from_chain}
use aca_py_did_kanon.Zk.Issuer.Loops.{Credential, add_leaves, drop_leaves, poseidon_leaf}
use aca_py_did_kanon.Zk.Issuer.Again.{add_leaves-present, add_leaves-fresh}
use aca_py_did_kanon.Zk.Issuer.Published.{derive_leaf-IsByte, poseidon_leaf-IsByte}
use aca_py_did_kanon.Zk.Issuer.Retry.{save_checkpoint-cache, ensure_initialized-cache}
use aca_py_did_kanon.Zk.Issuer.Roots.{compute_keccak_root, compute_poseidon_root}
use aca_py_did_kanon.Zk.Issuer.Methods.{
  World, set_state, load_checkpoint, save_checkpoint, load_and_replay, get_or_init,
  ensure_initialized, settle, finish_added, publish_added, add_to_state, add_issued,
  publish_revoked, revoke_in_state, revoke, get_checkpoint, invalidate,
}

-- Every set in the cache has each leaf once, in lower case.
abbrev pub CacheIsCanonical : {S : Type 0} → World S → Type 0
CacheIsCanonical world =
    (key : Bytes) (state : IssuerState)
    → get key world.cache ≡ some state
    → IsCanonical state.active

to_hex-IsLower :
    (w : Web3) (v : BytesLike) (leaf : Bytes) → derive_leaf w v ≡ ok leaf → IsLower (to_hex leaf)
to_hex-IsLower w v leaf e = lower-to_hex leaf (derive_leaf-IsByte w v leaf e)

pub add_leaves-IsCanonical :
    (w : Web3) (k : Constants) (cd : Bytes) (creds : List Credential) (d : Dict Bytes)
    (ks ps : List Bytes)
    → IsCanonical d
    → IsCanonical ((add_leaves w k cd creds d ks ps).1)
unfolding add_leaves
add_leaves-IsCanonical w k cd [] d ks ps c = c
add_leaves-IsCanonical w k cd ((cid, attrs) ∷ rest) d ks ps c =
    elim (Result-cases (derive_leaf w (text cid))) [
      | inr (e, eq) ↦ rw (eq, add_leaves) c
      | inl (leaf, eq) ↦ elim (Bool-cases (has (to_hex leaf) d)) [
        | inl present ↦
            subst (λ r. IsCanonical r.1)
              (sym (add_leaves-present w k cd (cid, attrs) rest d ks ps leaf eq present))
              (add_leaves-IsCanonical w k cd rest d ks ps c)
        | inr absent ↦ elim (Result-cases (poseidon_leaf w k cd cid attrs)) [
          | inr (e, pe) ↦ rw (eq, absent, pe, add_leaves) c
          | inl (companion, pe) ↦
              let c' =
                put-IsCanonical (to_hex leaf) (to_hex companion) d
                  (to_hex-IsLower w (text cid) leaf eq)
                  (lower-to_hex companion (poseidon_leaf-IsByte w k cd cid attrs companion pe)) c in
              subst (λ r. IsCanonical r.1)
                (sym
                  (add_leaves-fresh w k cd (cid, attrs) rest d ks ps leaf companion eq absent pe))
                (add_leaves-IsCanonical w k cd rest _ _ _ c')
        ]
      ]
    ]

pub drop_leaves-IsCanonical :
    (w : Web3) (cids : List Bytes) (d : Dict Bytes) (ks ps : List Bytes)
    → IsCanonical d
    → IsCanonical ((drop_leaves w cids d ks ps).1)
unfolding drop_leaves
drop_leaves-IsCanonical w [] d ks ps c = c
drop_leaves-IsCanonical w (cid ∷ rest) d ks ps c = elim (Result-cases (derive_leaf w (text cid))) [
  | inr (e, eq) ↦ rw (eq, drop_leaves) c
  | inl (leaf, eq) ↦ elim (Option-cases (get (to_hex leaf) d)) [
    | inl absent ↦ rw (eq, absent, drop_leaves) c
    | inr (companion_hex, present) ↦ elim (Result-cases (from_hex companion_hex)) [
      | inr (e, pe) ↦ rw (eq, present, pe, drop_leaves) c
      | inl (companion, pe) ↦
          rw (eq, present, pe, drop_leaves)
            (drop_leaves-IsCanonical w rest (pop (to_hex leaf) d) (ks ++ leaf ∷ [])
              (ps ++ companion ∷ []) (pop-IsCanonical (to_hex leaf) d c))
    ]
  ]
]

pub set_state-CacheIsCanonical :
    {S : Type 0} (key : Bytes) (state : IssuerState) (world : World S)
    → IsCanonical state.active
    → CacheIsCanonical world
    → CacheIsCanonical (set_state key state world)
set_state-CacheIsCanonical key state world c all j found h = elim (Bool-cases (bytes_eq key j)) [
  | inl same ↦
      let e : some state ≡ some found = sym (get-put key j state world.cache ∙ rw same refl) ∙ h in
      subst (λ s. IsCanonical (IssuerState.active s)) (some_inj e) c
  | inr other ↦
      let e : get j world.cache ≡ some found =
        sym (get-put key j state world.cache ∙ rw other refl) ∙ h in
      all j found e
]
  where
    some_inj : {a b : IssuerState} → some a ≡ some b → a ≡ b
    some_inj h = cc

pub cache-CacheIsCanonical :
    {S : Type 0} (v world : World S)
    → v.cache ≡ world.cache
    → CacheIsCanonical world
    → CacheIsCanonical v
cache-CacheIsCanonical v world e all j found h = all j found (ap (get j) (sym e) ∙ h)

abbrev pub IsGood : {S : Type 0} → Result IssuerState × World S → Type 0
IsGood r =
    CacheIsCanonical r.1 × ((state : IssuerState) → r.0 ≡ ok state → IsCanonical state.active)

module _ {S : Type 0} (st : Storage Checkpoint S) (chain : Chain) (w : Web3) (k : Constants) where
  load_checkpoint-IsCanonical :
      (cd : Bytes) (world : World S) → IsCanonical ((load_checkpoint st cd world).active)
  unfolding load_checkpoint
  load_checkpoint-IsCanonical cd world =
      elim (Result-cases
        (st.get_record world.store checkpoint_record_type (checkpoint_record_id cd))) [
          | inr (e, eq) ↦ rw (eq, load_checkpoint) tt
          | inl (none, eq) ↦ rw (eq, load_checkpoint) tt
          | inl (some c, eq) ↦ elim (Result-cases (from_dict c)) [
            | inr (e, ec) ↦ rw (eq, ec, load_checkpoint) tt
            | inl (state, ec) ↦ rw (eq, ec, load_checkpoint) (from_dict-IsCanonical c state ec)
          ]
        ]

  pub save_checkpoint-CacheIsCanonical :
      (cd : Bytes) (state : IssuerState) (world : World S)
      → CacheIsCanonical world
      → CacheIsCanonical (save_checkpoint st cd state world)
  save_checkpoint-CacheIsCanonical cd state world all =
      cache-CacheIsCanonical (save_checkpoint st cd state world) world
        (save_checkpoint-cache st chain w k cd state world) all

  replay_from_chain-IsCanonical :
      (cd : Bytes) (state state' : IssuerState)
      → IsCanonical state.active
      → replay_from_chain chain cd state ≡ ok state'
      → IsCanonical state'.active
  unfolding replay_from_chain
  replay_from_chain-IsCanonical cd state state' c h =
      let (events, ee, h1) =
        >>=-eq-ok
          (get_leaf_events chain.tip chain.added chain.revoked (raw cd) state.last_synced_block
            none)
          _ h in
      let (latest, el, h2) = >>=-eq-ok chain.latest_block (λ n. ok (synced events n)) h1 in
      subst (λ s. IsCanonical (IssuerState.active s)) (ok_inj h2)
        (replay-IsCanonical state.active events c)
    where
      synced : List LeafEvent → ℕ → IssuerState
      synced events n = record { active = replay state.active events; last_synced_block = n }

  -- What `get_or_init` returns is canonical, and so is every set in the cache that it leaves.
  pub get_or_init-IsGood :
      (cd : Bytes) (world : World S)
      → CacheIsCanonical world
      → IsGood (get_or_init st chain cd world)
  unfolding get_or_init load_and_replay
  get_or_init-IsGood cd world all = elim (Option-cases (get (to_hex cd) world.cache)) [
    | inr (state, cached) ↦
        let step : get_or_init st chain cd world ≡ (ok state, world) =
          rw (cached, get_or_init) refl in
        subst IsGood (sym step) (
          all,
          λ s e.
              subst (λ s. IsCanonical (IssuerState.active s)) (ok_inj e)
                (all (to_hex cd) state cached),
        )
    | inl absent ↦ elim (Result-cases (replay_from_chain chain cd (load_checkpoint st cd world))) [
      | inr (e, eq) ↦
          let step : get_or_init st chain cd world ≡ (err e, world) =
            rw (absent, eq, get_or_init, load_and_replay) refl in
          subst IsGood (sym step) (all, λ s h. absurd (err_ne_ok {why = e} h))
      | inl (state, eq) ↦
          let c =
            replay_from_chain-IsCanonical cd (load_checkpoint st cd world) state
              (load_checkpoint-IsCanonical cd world) eq in
          let synced = set_state (to_hex cd) state (save_checkpoint st cd state world) in
          let step : get_or_init st chain cd world ≡ (ok state, synced) =
            rw (absent, eq, get_or_init, load_and_replay) refl in
          subst IsGood (sym step) (
            set_state-CacheIsCanonical (to_hex cd) state (save_checkpoint st cd state world) c
                (save_checkpoint-CacheIsCanonical cd state world all),
            λ s e. subst (λ s. IsCanonical (IssuerState.active s)) (ok_inj e) c,
          )
    ]
  ]
