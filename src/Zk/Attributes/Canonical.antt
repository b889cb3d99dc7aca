-- ===== src/Zk/Attributes/Canonical.antt =====
-- The encoding does not depend on the order of the dict, and it does not read excluded names.
use mathlib.Core.Logic.{∥∥₁_elim}
use mathlib.Core.List.{Perm, Permᴰ}
use aca_py_did_kanon.Prelude.{
  ◌≡◌, refl, ◌∙◌, true, List, [], ◌∷◌, arith, if◌then◌else◌, Bool-cases, inl, inr, Bytes, bytes_lt,
  bytes_lt_asymm, eq_of_not_lt,
}
use aca_py_did_kanon.Prelude.Dict.{Dict, get, keys}
use aca_py_did_kanon.Web3.{Web3}
use aca_py_did_kanon.Zk.Attributes.{
  contains, kept_names, insert_name, sort_names, felts_of, encode_attributes_canonical,
}

bytes_lt_trans : (a b c : Bytes) → bytes_lt a b ≡ true → bytes_lt b c ≡ true → bytes_lt a c ≡ true
unfolding bytes_lt
bytes_lt_trans [] [] c h k = cc
bytes_lt_trans [] (b ∷ bs) [] h k = cc
bytes_lt_trans [] (b ∷ bs) (c ∷ cs) h k = refl
bytes_lt_trans (a ∷ as') [] c h k = cc
bytes_lt_trans (a ∷ as') (b ∷ bs) [] h k = cc
bytes_lt_trans (a ∷ as') (b ∷ bs) (c ∷ cs) h k = ground (arith, bytes_lt_trans as' bs cs)

-- Two insertions commute: names are compared by a strict total order.
insert_name_comm :
    (a b : Bytes) (names : List Bytes)
    → insert_name a (insert_name b names) ≡ insert_name b (insert_name a names)
unfolding insert_name
insert_name_comm a b [] = elim (Bool-cases (bytes_lt a b)) [
  | inl h ↦ rw (h, bytes_lt_asymm a b h)
  | inr h ↦ elim (Bool-cases (bytes_lt b a)) [
    | inl k ↦ rw (h, k)
    | inr k ↦ rw (eq_of_not_lt a b h k)
  ]
]
insert_name_comm a b (m ∷ names) = ground (
  arith,
  insert_name_comm a b names,
  bytes_lt_asymm a b,
  bytes_lt_asymm b a,
  eq_of_not_lt a b,
  bytes_lt_trans m a b,
  bytes_lt_trans m b a,
  bytes_lt_trans a b m,
)

abbrev sorted_kept : List Bytes → List Bytes → List Bytes
sorted_kept exclude names = sort_names (kept_names exclude names)

sorted_kept-cons :
    (exclude : List Bytes) (n : Bytes) (names : List Bytes)
    → sorted_kept exclude (n ∷ names) ≡ (
        if contains exclude n
        then sorted_kept exclude names
        else insert_name n (sorted_kept exclude names))
unfolding kept_names sort_names
sorted_kept-cons exclude n names = elim (Bool-cases (contains exclude n)) [
  | inl h ↦ rw (h, kept_names)
  | inr h ↦ rw (h, kept_names)
]

-- Names in another order are sorted to the same list.
sorted_kept-Permᴰ :
    (exclude : List Bytes) {xs ys : List Bytes}
    → Permᴰ xs ys
    → sorted_kept exclude xs ≡ sorted_kept exclude ys
sorted_kept-Permᴰ exclude Permᴰ.nil = refl
sorted_kept-Permᴰ exclude (Permᴰ.cons {a = a} {b = b} {l₁ = xs} {l₂ = ys} e p) = ground (
  arith,
  e,
  sorted_kept-cons exclude a xs,
  sorted_kept-cons exclude b ys,
  sorted_kept-Permᴰ exclude p,
)
sorted_kept-Permᴰ exclude (Permᴰ.swap {a = a} {b = b} {a' = c} {b' = d} {l = l} e f) =
    rw (e, f)
      (ground (
        arith,
        sorted_kept-cons exclude d (c ∷ l),
        sorted_kept-cons exclude c (d ∷ l),
        sorted_kept-cons exclude c l,
        sorted_kept-cons exclude d l,
        insert_name_comm c d (sorted_kept exclude l),
      ))
sorted_kept-Permᴰ exclude (Permᴰ.trans p q) =
    sorted_kept-Permᴰ exclude p ∙ sorted_kept-Permᴰ exclude q

sorted_kept-perm :
    (exclude : List Bytes) (xs ys : List Bytes)
    → Perm xs ys
    → sorted_kept exclude xs ≡ sorted_kept exclude ys
sorted_kept-perm exclude xs ys p = ∥∥₁_elim p (names_set _ _) (sorted_kept-Permᴰ exclude)
  where
    names_set : IsSet (List Bytes)
    names_set = hlevel

module _ (w : Web3) where
  felts_of-cong :
      (d e : Dict Bytes) (names : List Bytes)
      → ((n : Bytes) → get n d ≡ get n e)
      → felts_of w d names ≡ felts_of w e names
  unfolding felts_of
  felts_of-cong d e [] h = refl
  felts_of-cong d e (n ∷ names) h = rw (h n, felts_of-cong d e names h)

  -- Two dicts with the same entries, inserted in any order, have the same encoding.
  pub encode_order :
      (d e : Dict Bytes) (exclude : List Bytes)
      → Perm (keys d) (keys e)
      → ((n : Bytes) → get n d ≡ get n e)
      → encode_attributes_canonical w d exclude ≡ encode_attributes_canonical w e exclude
  unfolding encode_attributes_canonical
  encode_order d e exclude p h =
      rw (sorted_kept-perm exclude (keys d) (keys e) p)
        (felts_of-cong d e (sorted_kept exclude (keys e)) h)
