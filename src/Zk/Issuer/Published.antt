-- ===== src/Zk/Issuer/Published.antt =====
-- The events of a published batch, replayed, give the set that the issuer has cached.
use aca_py_did_kanon.Prelude.{
  Result-cases, ok_inj, err_ne_ok, ℕ, ◌+◌, ◌≡◌, refl, sym, ap, subst, ◌∙◌, List, [], ◌∷◌, ◌++◌, map,
  Bool-cases, Option-cases, inl, inr, Bytes, zk_issuer_error, ok, All, >>=-eq-ok,
}
use mathlib.Core.List.{append_assoc, append-nil}
use aca_py_did_kanon.Prelude.Dict.{Dict, get, has, put, pop}
use aca_py_did_kanon.Prelude.Hex.{to_hex, from_hex, lower-to_hex, IsByte}
use aca_py_did_kanon.Web3.{Web3}
use aca_py_did_kanon.Contracts.Convert.{BytesLike, raw, text}
use aca_py_did_kanon.Contracts.MerkleState.{Log, add, revoke, to_event}
use aca_py_did_kanon.Zk.Poseidon.{Constants}
use aca_py_did_kanon.Zk.Attributes.{
  reserved_attribute_names, encode_attributes_canonical, pad_attrs_to_circuit,
}
use aca_py_did_kanon.Zk.Leaf.{
  derive_leaf, cred_bytes, compute_zk_leaf, felt_to_bytes32, felt_to_bytes32-IsByte,
}
use aca_py_did_kanon.Zk.Issuer.State.{apply_event, replay}
use aca_py_did_kanon.Zk.Issuer.Loops.{Credential, add_leaves, drop_leaves, poseidon_leaf}
use aca_py_did_kanon.Zk.Issuer.Again.{add_leaves-present, add_leaves-fresh}

-- The log entries of the leaves of one batch, in block `block` from `index` on.
abbrev pub logs_of : ℕ → ℕ → List Bytes → List Bytes → List Log
logs_of block index [] ps = []
logs_of block index (k ∷ ks) [] = []
logs_of block index (k ∷ ks) (p ∷ ps) =
    record { block = block; log_index = index; leaf_keccak = k; leaf_poseidon = p }
    ∷ logs_of block (index + 1) ks ps

pub derive_leaf-IsByte :
    (w : Web3) (v : BytesLike) (leaf : Bytes) → derive_leaf w v ≡ ok leaf → All IsByte leaf
unfolding derive_leaf
derive_leaf-IsByte w v leaf h =
    let (b, e, hashed) = >>=-eq-ok (cred_bytes v) (λ b. ok (w.keccak (w.keccak b))) h in
    subst (All IsByte) (ok_inj hashed) (w.keccak-IsByte (w.keccak b))

pub poseidon_leaf-IsByte :
    (w : Web3) (k : Constants) (cd cid : Bytes) (attrs : Dict Bytes) (leaf : Bytes)
    → poseidon_leaf w k cd cid attrs ≡ ok leaf
    → All IsByte leaf
unfolding poseidon_leaf
poseidon_leaf-IsByte w k cd cid attrs leaf h =
    let (felts, e, h1) =
      >>=-eq-ok (encode_attributes_canonical w attrs reserved_attribute_names) _ h in
    let (padded, e', h2) = >>=-eq-ok (pad_attrs_to_circuit felts) _ h1 in
    let (x, e'', h3) =
      >>=-eq-ok (compute_zk_leaf k (raw cd) (raw (w.keccak_text cid)) padded)
        (λ x. ok (felt_to_bytes32 x)) h2 in
    subst (All IsByte) (ok_inj h3) (felt_to_bytes32-IsByte x)

apply_event-add :
    (d : Dict Bytes) (block index : ℕ) (leaf companion : Bytes)
    → All IsByte leaf
    → All IsByte companion
    → apply_event d (
        to_event add (record {
          block = block;
          log_index = index;
          leaf_keccak = leaf;
          leaf_poseidon = companion;
        }))
      ≡ put (to_hex leaf) (to_hex companion) d
unfolding apply_event to_event
apply_event-add d block index leaf companion bl bc =
    rw (lower-to_hex leaf bl, lower-to_hex companion bc) refl

apply_event-revoke :
    (d : Dict Bytes) (block index : ℕ) (leaf companion : Bytes)
    → All IsByte leaf
    → apply_event d (
        to_event revoke (record {
          block = block;
          log_index = index;
          leaf_keccak = leaf;
          leaf_poseidon = companion;
        }))
      ≡ pop (to_hex leaf) d
unfolding apply_event to_event
apply_event-revoke d block index leaf companion bl = rw (lower-to_hex leaf bl) refl

module _ (w : Web3) (k : Constants) (cd : Bytes) (block : ℕ) where
  -- The loop's result as a replay, from any accumulated leaves.
  add_leaves-replay :
      (creds : List Credential) (d : Dict Bytes) (ks0 ps0 : List Bytes) (index : ℕ)
      (added : List Bytes × List Bytes)
      → (add_leaves w k cd creds d ks0 ps0).0 ≡ ok added
      → (ks : List Bytes) × (ps : List Bytes) × (added ≡ (ks0 ++ ks, ps0 ++ ps))
        × (replay d (map (to_event add) (logs_of block index ks ps))
            ≡ (add_leaves w k cd creds d ks0 ps0).1)
  unfolding add_leaves replay
  add_leaves-replay [] d ks0 ps0 index added h =
      ([], [], rw (append-nil ks0, append-nil ps0) (ok_inj (sym h)), refl)
  add_leaves-replay ((cid, attrs) ∷ rest) d ks0 ps0 index added h =
      elim (Result-cases (derive_leaf w (text cid))) [
        | inr (e, eq) ↦ absurd (err_ne_ok {why = e} (sym (rw (eq, add_leaves) refl) ∙ h))
        | inl (leaf, eq) ↦ elim (Bool-cases (has (to_hex leaf) d)) [
          | inl present ↦
              let step = add_leaves-present w k cd (cid, attrs) rest d ks0 ps0 leaf eq present in
              let (ks, ps, split, same) =
                add_leaves-replay rest d ks0 ps0 index added (sym (ap (λ r. r.0) step) ∙ h) in
              (ks, ps, split, same ∙ sym (ap (λ r. r.1) step))
          | inr absent ↦ elim (Result-cases (poseidon_leaf w k cd cid attrs)) [
            | inr (e, pe) ↦
                absurd (err_ne_ok {why = e} (sym (rw (eq, absent, pe, add_leaves) refl) ∙ h))
            | inl (companion, pe) ↦
                let step =
                  add_leaves-fresh w k cd (cid, attrs) rest d ks0 ps0 leaf companion eq absent pe in
                let (ks, ps, split, same) =
                  add_leaves-replay rest (put (to_hex leaf) (to_hex companion) d) (ks0 ++ leaf ∷ [])
                    (ps0 ++ companion ∷ []) (index + 1) added (sym (ap (λ r. r.0) step) ∙ h) in
                let event =
                  apply_event-add d block index leaf companion
                    (derive_leaf-IsByte w (text cid) leaf eq)
                    (poseidon_leaf-IsByte w k cd cid attrs companion pe) in
                (
                  leaf ∷ ks,
                  companion ∷ ps,
                  rw (← append_assoc ks0 (leaf ∷ []) ks, ← append_assoc ps0 (companion ∷ []) ps)
                      split,
                  ap (λ d'. replay d' (map (to_event add) (logs_of block (index + 1) ks ps))) event
                      ∙ same
                      ∙ sym (ap (λ r. r.1) step),
                )
          ]
        ]
      ]

  -- The batch that `add_issued` publishes carries the difference of its cached set: where its loop
  -- takes the set `d` to `d'` with the leaves `ks` and companions `ps` to publish, replaying the
  -- events of a batch with these leaves on `d` gives `d'`, its order of leaves included.
  pub add_leaves-eq-replay :
      (creds : List Credential) (d d' : Dict Bytes) (ks ps : List Bytes)
      → add_leaves w k cd creds d [] [] ≡ (ok (ks, ps), d')
      → replay d (map (to_event add) (logs_of block 0 ks ps)) ≡ d'
  add_leaves-eq-replay creds d d' ks ps h =
      let (ks', ps', split, same) = add_leaves-replay creds d [] [] 0 (ks, ps) (ap (λ r. r.0) h) in
      let leaves : replay d (map (to_event add) (logs_of block 0 ks ps))
          ≡ replay d (map (to_event add) (logs_of block 0 ks' ps')) =
        ap (λ r. replay d (map (to_event add) (logs_of block 0 r.0 r.1))) split in
      leaves ∙ same ∙ ap (λ r. r.1) h

  drop_leaves-replay :
      (cids : List Bytes) (d : Dict Bytes) (ks0 ps0 : List Bytes) (index : ℕ)
      (revoked : List Bytes × List Bytes)
      → (drop_leaves w cids d ks0 ps0).0 ≡ ok revoked
      → (ks : List Bytes) × (ps : List Bytes) × (revoked ≡ (ks0 ++ ks, ps0 ++ ps))
        × (replay d (map (to_event revoke) (logs_of block index ks ps))
            ≡ (drop_leaves w cids d ks0 ps0).1)
  unfolding drop_leaves replay
  drop_leaves-replay [] d ks0 ps0 index revoked h =
      ([], [], rw (append-nil ks0, append-nil ps0) (ok_inj (sym h)), refl)
  drop_leaves-replay (cid ∷ rest) d ks0 ps0 index revoked h =
      elim (Result-cases (derive_leaf w (text cid))) [
        | inr (e, eq) ↦ absurd (err_ne_ok {why = e} (sym (rw (eq, drop_leaves) refl) ∙ h))
        | inl (leaf, eq) ↦ elim (Option-cases (get (to_hex leaf) d)) [
          | inl absent ↦
              absurd
                (err_ne_ok {why = zk_issuer_error} (sym (rw (eq, absent, drop_leaves) refl) ∙ h))
          | inr (companion_hex, present) ↦ elim (Result-cases (from_hex companion_hex)) [
            | inr (e, pe) ↦
                absurd (err_ne_ok {why = e} (sym (rw (eq, present, pe, drop_leaves) refl) ∙ h))
            | inl (companion, pe) ↦
                let step : drop_leaves w (cid ∷ rest) d ks0 ps0
                    ≡ drop_leaves w rest (pop (to_hex leaf) d) (ks0 ++ leaf ∷ [])
                        (ps0 ++ companion ∷ []) =
                  rw (eq, present, pe, drop_leaves) refl in
                let (ks, ps, split, same) =
                  drop_leaves-replay rest (pop (to_hex leaf) d) (ks0 ++ leaf ∷ [])
                    (ps0 ++ companion ∷ []) (index + 1) revoked (sym (ap (λ r. r.0) step) ∙ h) in
                let event =
                  apply_event-revoke d block index leaf companion
                    (derive_leaf-IsByte w (text cid) leaf eq) in
                (
                  leaf ∷ ks,
                  companion ∷ ps,
                  rw (← append_assoc ks0 (leaf ∷ []) ks, ← append_assoc ps0 (companion ∷ []) ps)
                      split,
                  ap (λ d'. replay d' (map (to_event revoke) (logs_of block (index + 1) ks ps)))
                        event
                      ∙ same
                      ∙ sym (ap (λ r. r.1) step),
                )
          ]
        ]
      ]

  -- Likewise the batch that `revoke` publishes: replaying its events on the set before gives the set
  -- that the loop of `revoke` leaves in the cache.
  pub drop_leaves-eq-replay :
      (cids : List Bytes) (d d' : Dict Bytes) (ks ps : List Bytes)
      → drop_leaves w cids d [] [] ≡ (ok (ks, ps), d')
      → replay d (map (to_event revoke) (logs_of block 0 ks ps)) ≡ d'
  drop_leaves-eq-replay cids d d' ks ps h =
      let (ks', ps', split, same) = drop_leaves-replay cids d [] [] 0 (ks, ps) (ap (λ r. r.0) h) in
      let leaves : replay d (map (to_event revoke) (logs_of block 0 ks ps))
          ≡ replay d (map (to_event revoke) (logs_of block 0 ks' ps')) =
        ap (λ r. replay d (map (to_event revoke) (logs_of block 0 r.0 r.1))) split in
      leaves ∙ same ∙ ap (λ r. r.1) h
