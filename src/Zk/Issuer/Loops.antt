-- ===== src/Zk/Issuer/Loops.antt =====
-- The loops over credentials in `add_issued` and `revoke`. What a round has written to the active
-- set stays there when a later round raises.
use aca_py_did_kanon.Prelude.{
  true, false, none, some, List, [], ◌∷◌, ◌++◌, Bytes, Result, ok, err, zk_issuer_error, ◌>>=◌,
}
use aca_py_did_kanon.Prelude.Dict.{Dict, get, has, put, pop}
use aca_py_did_kanon.Prelude.Hex.{to_hex, from_hex}
use aca_py_did_kanon.Web3.{Web3}
use aca_py_did_kanon.Contracts.Convert.{raw, text}
use aca_py_did_kanon.Zk.Poseidon.{Constants}
use aca_py_did_kanon.Zk.Attributes.{
  reserved_attribute_names, encode_attributes_canonical, pad_attrs_to_circuit,
}
use aca_py_did_kanon.Zk.Leaf.{derive_leaf, compute_zk_leaf, felt_to_bytes32}

-- `(cred_id, domain_attributes)`
abbrev pub Credential : Type 0
Credential = Bytes × Dict Bytes

module _ (w : Web3) (k : Constants) where
  -- The Mode B leaf of a credential.
  unfoldable pub poseidon_leaf : Bytes → Bytes → Dict Bytes → Result Bytes
  poseidon_leaf cd cid attrs = do
    felts ← encode_attributes_canonical w attrs reserved_attribute_names
    padded ← pad_attrs_to_circuit felts
    x ← compute_zk_leaf k (raw cd) (raw (w.keccak_text cid)) padded
    ok (felt_to_bytes32 x)

  -- The loop of `add_issued`: the outcome with the leaves added, and the active set.
  unfoldable pub add_leaves :
      Bytes
      → List Credential
      → Dict Bytes
      → List Bytes
      → List Bytes
      → Result (List Bytes × List Bytes) × Dict Bytes
  add_leaves cd [] active added_k added_p = (ok (added_k, added_p), active)
  add_leaves cd ((cid, attrs) ∷ rest) active added_k added_p = elim (derive_leaf w (text cid)) [
    | err e ↦ (err e, active)
    | ok leaf ↦ elim (has (to_hex leaf) active) [
      | true ↦ add_leaves cd rest active added_k added_p
      | false ↦ elim (poseidon_leaf cd cid attrs) [
        | err e ↦ (err e, active)
        | ok companion ↦
            add_leaves cd rest (put (to_hex leaf) (to_hex companion) active) (added_k ++ leaf ∷ [])
              (added_p ++ companion ∷ [])
      ]
    ]
  ]

-- The loop of `revoke`.
unfoldable pub drop_leaves :
    Web3
    → List Bytes
    → Dict Bytes
    → List Bytes
    → List Bytes
    → Result (List Bytes × List Bytes) × Dict Bytes
drop_leaves w [] active revoked_k revoked_p = (ok (revoked_k, revoked_p), active)
drop_leaves w (cid ∷ rest) active revoked_k revoked_p = elim (derive_leaf w (text cid)) [
  | err e ↦ (err e, active)
  | ok leaf ↦ elim (get (to_hex leaf) active) [
    | none ↦ (err zk_issuer_error, active)
    | some companion_hex ↦ elim (from_hex companion_hex) [
      | err e ↦ (err e, active)
      | ok companion ↦
          drop_leaves w rest (pop (to_hex leaf) active) (revoked_k ++ leaf ∷ [])
            (revoked_p ++ companion ∷ [])
    ]
  ]
]
