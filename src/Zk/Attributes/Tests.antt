-- ===== src/Zk/Attributes/Tests.antt =====
-- The encoding at two attributes.
use mathlib.Core.List.{Perm, Permᴰ}
use aca_py_did_kanon.Prelude.{
  ℕ, ◌+◌, ◌≡◌, refl, subst, true, List, [], ◌∷◌, Bytes, bytes_eq, bytes_eq_iff, Bool-cases, inl,
  inr,
}
use aca_py_did_kanon.Prelude.Dict.{Dict, get, keys}
use aca_py_did_kanon.Prelude.Hex.{codes}
use aca_py_did_kanon.Web3.Toy.{toy}
use aca_py_did_kanon.Zk.Poseidon.{bn254_prime}
use aca_py_did_kanon.Zk.Attributes.{
  kanon_cred_id_attribute, reserved_attribute_names, contains, encode_attributes_canonical,
}
use aca_py_did_kanon.Zk.Attributes.Canonical.{encode_order}

abbrev name_first : Dict Bytes
name_first = (codes "name", codes "Ann") ∷ (codes "age", codes "30") ∷ []

abbrev age_first : Dict Bytes
age_first = (codes "age", codes "30") ∷ (codes "name", codes "Ann") ∷ []

keys_perm : Perm (keys name_first) (keys age_first)
unfolding keys
keys_perm = ∣ Permᴰ.swap refl refl ∣₁

same_entries : (n : Bytes) → get n name_first ≡ get n age_first
unfolding get bytes_eq
same_entries n = elim (Bool-cases (bytes_eq (codes "name") n)) [
  | inl h ↦
      subst (λ m. get m name_first ≡ get m age_first) ((bytes_eq_iff (codes "name") n).0 h) refl
  | inr h ↦ rw h refl
]

encode_order_example :
    encode_attributes_canonical toy name_first reserved_attribute_names
    ≡ encode_attributes_canonical toy age_first reserved_attribute_names
encode_order_example =
    encode_order toy name_first age_first reserved_attribute_names keys_perm same_entries

reserved : contains reserved_attribute_names kanon_cred_id_attribute ≡ true
unfolding contains bytes_eq
reserved = refl

abbrev two_values : List ℕ
two_values = (bn254_prime + 4) ∷ 5 ∷ []
