-- ===== src/Zk/Attributes.antt =====
-- zk/attributes.py: the canonical encoding of attribute values as field elements.
pub mod Canonical
pub mod Padding
pub mod Names
mod Tests
use aca_py_did_kanon.Prelude.{
  ℕ, zero, suc, ◌+◌, ◌%◌, Bool, true, false, ◌||◌, none, some, List, [], ◌∷◌, ◌++◌, map, ltb,
  if◌then◌else◌, length, Bytes, bytes_eq, bytes_lt, Result, ok, err, ◌>>=◌, ◌>>◌, raise_if,
  value_error, key_error,
}
use aca_py_did_kanon.Prelude.Dict.{Dict, get, keys}
use aca_py_did_kanon.Prelude.Hex.{codes}
use aca_py_did_kanon.Prelude.Words.{from_be}
use aca_py_did_kanon.Web3.{Web3}
use aca_py_did_kanon.Zk.Poseidon.{bn254_prime}

abbrev pub kanon_cred_id_attribute : Bytes
kanon_cred_id_attribute = codes "kanonCredId"

abbrev pub kanon_zk_sig_attribute : Bytes
kanon_zk_sig_attribute = codes "kanonZkSig"

abbrev pub kanon_zk_proof_attribute : Bytes
kanon_zk_proof_attribute = codes "kanonZkProof"

abbrev pub reserved_attribute_names : List Bytes
reserved_attribute_names =
    kanon_cred_id_attribute ∷ kanon_zk_sig_attribute ∷ kanon_zk_proof_attribute ∷ []

abbrev pub circuit_attrs : ℕ
circuit_attrs = 16

-- `name in names`
unfoldable pub contains : List Bytes → Bytes → Bool
contains [] name = false
contains (n ∷ names) name = bytes_eq n name || contains names name

-- The generator `n for n in values.keys() if n not in exclude`.
unfoldable pub kept_names : List Bytes → List Bytes → List Bytes
kept_names exclude [] = []
kept_names exclude (n ∷ names) =
    let rest = kept_names exclude names in if contains exclude n then rest else n ∷ rest

-- Python's `sorted` on texts.
unfoldable pub insert_name : Bytes → List Bytes → List Bytes
insert_name n [] = n ∷ []
insert_name n (m ∷ names) =
    let rest = insert_name n names in if bytes_lt m n then m ∷ rest else n ∷ m ∷ names

unfoldable pub sort_names : List Bytes → List Bytes
sort_names [] = []
sort_names (n ∷ names) = insert_name n (sort_names names)

module _ (w : Web3) where
  unfoldable pub attr_value_to_felt : Bytes → ℕ
  attr_value_to_felt value = from_be (w.keccak_text value) % bn254_prime

  -- `[attr_value_to_felt(values[n]) for n in sorted_names]`
  unfoldable pub felts_of : Dict Bytes → List Bytes → Result (List ℕ)
  felts_of values [] = ok []
  felts_of values (n ∷ names) = do
    value ← elim (get n values) [ none ↦ err key_error | some v ↦ ok v ]
    rest ← felts_of values names
    ok (attr_value_to_felt value ∷ rest)

  unfoldable pub encode_attributes_canonical : Dict Bytes → List Bytes → Result (List ℕ)
  encode_attributes_canonical values exclude_names =
      felts_of values (sort_names (kept_names exclude_names (keys values)))

-- `while len(out) < 16: out.append(0)`, on fuel.
unfoldable pub append_zeros : ℕ → List ℕ → List ℕ
append_zeros zero out = out
append_zeros (suc fuel) out = elim (ltb (length out) circuit_attrs) [
  | true ↦ append_zeros fuel (out ++ 0 ∷ [])
  | false ↦ out
]

unfoldable pub pad_attrs_to_circuit : List ℕ → Result (List ℕ)
pad_attrs_to_circuit attrs = do
  raise_if (ltb circuit_attrs (length attrs)) value_error
  ok (append_zeros circuit_attrs (map (λ a. a % bn254_prime) attrs))
