-- ===== src/Zk/Attributes/Names.antt =====
-- What is read of the dict: each kept name once, and no excluded one.
use aca_py_did_kanon.Prelude.{
  ℕ, suc, ◌≡◌, refl, ap, ◌∙◌, true, false, some, List, [], ◌∷◌, arith, length, Bool-cases, inl, inr,
  Bytes, bytes_eq, bytes_lt, bytes_eq_iff, ok, All,
}
use aca_py_did_kanon.Prelude.Dict.{Dict, get, put, keys, get-put}
use aca_py_did_kanon.Web3.{Web3}
use aca_py_did_kanon.Zk.Poseidon.Range.{IsFelt}
use aca_py_did_kanon.Zk.Attributes.{
  contains, kept_names, insert_name, sort_names, felts_of, encode_attributes_canonical,
  attr_value_to_felt,
}

module _ {κ} (P : Bytes → Type κ) where
  insert_name-All :
      (n : Bytes) (names : List Bytes) → P n → All P names → All P (insert_name n names)
  unfolding insert_name
  insert_name-All n [] p a = (p, tt)
  insert_name-All n (m ∷ names) p a = elim (Bool-cases (bytes_lt m n)) [
    | inl h ↦ rw (h, insert_name) (a.0, insert_name-All n names p a.1)
    | inr h ↦ rw (h, insert_name) (p, a)
  ]

  sort_names-All : (names : List Bytes) → All P names → All P (sort_names names)
  unfolding sort_names
  sort_names-All [] a = a
  sort_names-All (n ∷ names) a = insert_name-All n (sort_names names) a.0 (sort_names-All names a.1)

  kept_names-All : (exclude names : List Bytes) → All P names → All P (kept_names exclude names)
  unfolding kept_names
  kept_names-All exclude [] a = a
  kept_names-All exclude (n ∷ names) a = elim (Bool-cases (contains exclude n)) [
    | inl h ↦ rw (h, kept_names) (kept_names-All exclude names a.1)
    | inr h ↦ rw (h, kept_names) (a.0, kept_names-All exclude names a.1)
  ]

length-insert_name :
    (n : Bytes) (names : List Bytes) → length (insert_name n names) ≡ suc (length names)
unfolding insert_name
length-insert_name n [] = refl
length-insert_name n (m ∷ names) = ground (arith, length-insert_name n names)

length-sort_names : (names : List Bytes) → length (sort_names names) ≡ length names
unfolding sort_names
length-sort_names [] = refl
length-sort_names (n ∷ names) =
    length-insert_name n (sort_names names) ∙ ap suc (length-sort_names names)

kept_names-excluded :
    (exclude names : List Bytes) → All (λ m. contains exclude m ≡ false) (kept_names exclude names)
unfolding kept_names
kept_names-excluded exclude [] = tt
kept_names-excluded exclude (n ∷ names) = elim (Bool-cases (contains exclude n)) [
  | inl h ↦ rw (h, kept_names) (kept_names-excluded exclude names)
  | inr h ↦ rw (h, kept_names) (h, kept_names-excluded exclude names)
]

contains_ne :
    (exclude : List Bytes) (n m : Bytes)
    → contains exclude n ≡ true
    → contains exclude m ≡ false
    → bytes_eq n m ≡ false
contains_ne exclude n m h k = elim (Bool-cases (bytes_eq n m)) [
  | inl same ↦ ground (arith, (bytes_eq_iff n m).0 same, h, k)
  | inr other ↦ other
]

kept_names-put {ℓ} :
    {V : Type ℓ} (exclude : List Bytes) (n : Bytes) (v : V) (d : Dict V)
    → contains exclude n ≡ true
    → kept_names exclude (keys (put n v d)) ≡ kept_names exclude (keys d)
unfolding kept_names keys put
kept_names-put exclude n v [] h = rw (h, kept_names)
kept_names-put exclude n v ((j, u) ∷ d) h = elim (Bool-cases (bytes_eq j n)) [
  | inl same ↦ rw (same, put)
  | inr other ↦ rw (other, put) (rw (kept_names-put exclude n v d h))
]

abbrev HasKey : Dict Bytes → Bytes → Type 0
HasKey d n = (v : Bytes) × (get n d ≡ some v)

keys-HasKey :
    (d e : Dict Bytes) → ((n v : Bytes) → get n d ≡ some v → HasKey e n) → All (HasKey e) (keys d)
unfolding keys get
keys-HasKey [] e h = tt
keys-HasKey ((k, v) ∷ d) e h = (
  h k v (ground (arith, bytes_eq_iff k k)),
  keys-HasKey d e (λ n u g. elim (Bool-cases (bytes_eq k n)) [
    | inl same ↦ h n v (rw (same, get))
    | inr other ↦ h n u (rw (other, get) g)
  ]),
)

module _ (w : Web3) where
  felts_of_total :
      (d : Dict Bytes) (names : List Bytes)
      → All (HasKey d) names
      → (felts : List ℕ) × (felts_of w d names ≡ ok felts)
        × (length felts ≡ length names)
        × All IsFelt felts
  unfolding felts_of attr_value_to_felt
  felts_of_total d [] a = ([], refl, refl, tt)
  felts_of_total d (n ∷ names) a =
      let (v, found) = a.0 in
      let (rest, e, l, f) = felts_of_total d names a.1 in
      (attr_value_to_felt w v ∷ rest, rw (found, e), ap suc l, (omega arith, f))

  -- The encoding never raises: it has one field element for each name that is not excluded.
  pub encode_total :
      (d : Dict Bytes) (exclude : List Bytes)
      → (felts : List ℕ) × (encode_attributes_canonical w d exclude ≡ ok felts)
        × (length felts ≡ length (kept_names exclude (keys d)))
        × All IsFelt felts
  unfolding encode_attributes_canonical
  encode_total d exclude =
      let kept = kept_names exclude (keys d) in
      let present : All (HasKey d) (sort_names kept) =
        sort_names-All (HasKey d) kept
          (kept_names-All (HasKey d) exclude (keys d) (keys-HasKey d d (λ n v g. (v, g)))) in
      let (felts, e, l, f) = felts_of_total d (sort_names kept) present in
      (felts, e, l ∙ length-sort_names kept, f)

  felts_of-put :
      (exclude : List Bytes) (n v : Bytes) (d : Dict Bytes) (names : List Bytes)
      → contains exclude n ≡ true
      → All (λ m. contains exclude m ≡ false) names
      → felts_of w (put n v d) names ≡ felts_of w d names
  unfolding felts_of
  felts_of-put exclude n v d [] h a = refl
  felts_of-put exclude n v d (m ∷ names) h a =
      let same : get m (put n v d) ≡ get m d =
        get-put n m v d ∙ rw (contains_ne exclude n m h a.0) in
      rw (same, felts_of-put exclude n v d names h a.1)

  -- Setting an excluded name, such as a reserved one, leaves the encoding as it is.
  pub encode-put_excluded :
      (d : Dict Bytes) (exclude : List Bytes) (n v : Bytes)
      → contains exclude n ≡ true
      → encode_attributes_canonical w (put n v d) exclude ≡ encode_attributes_canonical w d exclude
  unfolding encode_attributes_canonical
  encode-put_excluded d exclude n v h =
      let kept = kept_names exclude (keys d) in
      rw (kept_names-put exclude n v d h) (
        felts_of-put exclude n v d (sort_names kept) h (
          sort_names-All (λ m. contains exclude m ≡ false) kept
            (kept_names-excluded exclude (keys d))))
