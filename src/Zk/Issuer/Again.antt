-- ===== src/Zk/Issuer/Again.antt =====
-- The loop of `add_issued` over credentials that it has gone through already.
use aca_py_did_kanon.Prelude.{
  Result-cases, err_ne_ok, ◌≡◌, refl, sym, ap, subst, ◌∙◌, true, false, none, some, List, [], ◌∷◌,
  ◌++◌, arith, Bool-cases, Option-cases, inl, inr, Bytes, bytes_eq_iff, ok, All,
}
use aca_py_did_kanon.Prelude.Dict.{Dict, get, has, put, get-put, get-put_self}
use aca_py_did_kanon.Prelude.Hex.{to_hex}
use aca_py_did_kanon.Web3.{Web3}
use aca_py_did_kanon.Contracts.Convert.{text}
use aca_py_did_kanon.Zk.Poseidon.{Constants}
use aca_py_did_kanon.Zk.Leaf.{derive_leaf}
use aca_py_did_kanon.Zk.Issuer.Loops.{Credential, add_leaves, poseidon_leaf}

get-has : (k : Bytes) (d : Dict Bytes) (p : Bytes) → get k d ≡ some p → has k d ≡ true
get-has k d p h = rw (h, has) refl

has-get : (k : Bytes) (d : Dict Bytes) → has k d ≡ false → get k d ≡ none
has-get k d h = ground arith

true_ne_false : true ≡ false → ⊥
true_ne_false h = cc

has-entry : (k : Bytes) (d : Dict Bytes) → has k d ≡ true → (p : Bytes) × (get k d ≡ some p)
has-entry k d h = elim (Option-cases (get k d)) [
  | inl e ↦ absurd (true_ne_false (sym h ∙ rw (e, has) refl))
  | inr found ↦ found
]

-- The credential's leaf is active.
abbrev IsActive : Web3 → Dict Bytes → Credential → Type 0
IsActive w d (cid, attrs) =
    (leaf : Bytes) × (derive_leaf w (text cid) ≡ ok leaf)
    × (p : Bytes) × (get (to_hex leaf) d ≡ some p)

module _ (w : Web3) (k : Constants) (cd : Bytes) where
  -- The loop overwrites no entry.
  add_leaves-keeps :
      (creds : List Credential) (d : Dict Bytes) (ks ps : List Bytes) (j p : Bytes)
      → get j d ≡ some p
      → get j ((add_leaves w k cd creds d ks ps).1) ≡ some p
  unfolding add_leaves
  add_leaves-keeps [] d ks ps j p h = h
  add_leaves-keeps ((cid, attrs) ∷ rest) d ks ps j p h =
      elim (Result-cases (derive_leaf w (text cid))) [
        | inr (e, eq) ↦ rw (eq, add_leaves) h
        | inl (leaf, eq) ↦ elim (Bool-cases (has (to_hex leaf) d)) [
          | inl present ↦ rw (eq, present, add_leaves) (add_leaves-keeps rest d ks ps j p h)
          | inr absent ↦ elim (Result-cases (poseidon_leaf w k cd cid attrs)) [
            | inr (e, pe) ↦ rw (eq, absent, pe, add_leaves) h
            | inl (companion, pe) ↦
                let free : get (to_hex leaf) d ≡ none = has-get (to_hex leaf) d absent in
                let kept : get j (put (to_hex leaf) (to_hex companion) d) ≡ some p =
                  get-put (to_hex leaf) j (to_hex companion) d
                  ∙ ground (arith, bytes_eq_iff (to_hex leaf) j) in
                rw (eq, absent, pe, add_leaves)
                  (add_leaves-keeps rest (put (to_hex leaf) (to_hex companion) d) (ks ++ leaf ∷ [])
                    (ps ++ companion ∷ []) j p kept)
          ]
        ]
      ]

  -- The two rounds that go on.
  pub add_leaves-present :
      (c : Credential) (rest : List Credential) (d : Dict Bytes) (ks ps : List Bytes) (leaf : Bytes)
      → derive_leaf w (text c.0) ≡ ok leaf
      → has (to_hex leaf) d ≡ true
      → add_leaves w k cd (c ∷ rest) d ks ps ≡ add_leaves w k cd rest d ks ps
  unfolding add_leaves
  add_leaves-present (cid, attrs) rest d ks ps leaf eq present = rw (eq, present, add_leaves) refl

  pub add_leaves-fresh :
      (c : Credential) (rest : List Credential) (d : Dict Bytes) (ks ps : List Bytes)
      (leaf companion : Bytes)
      → derive_leaf w (text c.0) ≡ ok leaf
      → has (to_hex leaf) d ≡ false
      → poseidon_leaf w k cd c.0 c.1 ≡ ok companion
      → add_leaves w k cd (c ∷ rest) d ks ps
        ≡ add_leaves w k cd rest
            (put (to_hex leaf) (to_hex companion) d)
            (ks ++ leaf ∷ [])
            (ps ++ companion ∷ [])
  unfolding add_leaves
  add_leaves-fresh (cid, attrs) rest d ks ps leaf companion eq absent pe =
      rw (eq, absent, pe, add_leaves) refl

  -- The loop leaves every credential it went through active.
  add_leaves-AllActive :
      (creds : List Credential) (d : Dict Bytes) (ks ps : List Bytes)
      (added : List Bytes × List Bytes)
      → (add_leaves w k cd creds d ks ps).0 ≡ ok added
      → All (IsActive w ((add_leaves w k cd creds d ks ps).1)) creds
  unfolding add_leaves
  add_leaves-AllActive [] d ks ps added h = tt
  add_leaves-AllActive ((cid, attrs) ∷ rest) d ks ps added h =
      elim (Result-cases (derive_leaf w (text cid))) [
        | inr (e, eq) ↦ absurd (err_ne_ok {why = e} (sym (rw (eq, add_leaves) refl) ∙ h))
        | inl (leaf, eq) ↦ elim (Bool-cases (has (to_hex leaf) d)) [
          | inl present ↦
              let (p, here) = has-entry (to_hex leaf) d present in
              let step = add_leaves-present (cid, attrs) rest d ks ps leaf eq present in
              subst (λ r. All (IsActive w r.1) ((cid, attrs) ∷ rest)) (sym step)
                (
                  (leaf, eq, p, add_leaves-keeps rest d ks ps (to_hex leaf) p here),
                  add_leaves-AllActive rest d ks ps added (sym (ap (λ r. r.0) step) ∙ h),
                )
          | inr absent ↦ elim (Result-cases (poseidon_leaf w k cd cid attrs)) [
            | inr (e, pe) ↦
                absurd (err_ne_ok {why = e} (sym (rw (eq, absent, pe, add_leaves) refl) ∙ h))
            | inl (companion, pe) ↦
                let p = to_hex companion in
                let d' = put (to_hex leaf) p d in
                let ks' = ks ++ leaf ∷ [] in
                let ps' = ps ++ companion ∷ [] in
                let step = add_leaves-fresh (cid, attrs) rest d ks ps leaf companion eq absent pe in
                subst (λ r. All (IsActive w r.1) ((cid, attrs) ∷ rest)) (sym step)
                  (
                    (
                      leaf,
                      eq,
                      p,
                      add_leaves-keeps rest d' ks' ps' (to_hex leaf) p
                          (get-put_self (to_hex leaf) p d),
                    ),
                    add_leaves-AllActive rest d' ks' ps' added (sym (ap (λ r. r.0) step) ∙ h),
                  )
          ]
        ]
      ]

  -- On credentials that are active already the loop does nothing.
  add_leaves-nop :
      (creds : List Credential) (d : Dict Bytes) (ks ps : List Bytes)
      → All (IsActive w d) creds
      → add_leaves w k cd creds d ks ps ≡ (ok (ks, ps), d)
  unfolding add_leaves
  add_leaves-nop [] d ks ps a = refl
  add_leaves-nop ((cid, attrs) ∷ rest) d ks ps ((leaf, eq, p, here), a) =
      rw (eq, get-has (to_hex leaf) d p here, add_leaves) (add_leaves-nop rest d ks ps a)

  -- A second run of the loop over the same credentials finds all their leaves and adds none.
  pub add_leaves_again :
      (creds : List Credential) (d : Dict Bytes) (added : List Bytes × List Bytes)
      → (add_leaves w k cd creds d [] []).0 ≡ ok added
      → add_leaves w k cd creds ((add_leaves w k cd creds d [] []).1) [] []
        ≡ (ok ([], []), (add_leaves w k cd creds d [] []).1)
  add_leaves_again creds d added h =
      add_leaves-nop creds ((add_leaves w k cd creds d [] []).1) [] []
        (add_leaves-AllActive creds d [] [] added h)
