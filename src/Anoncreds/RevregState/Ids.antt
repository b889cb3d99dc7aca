-- ===== src/Anoncreds/RevregState/Ids.antt =====
-- Record ids: different registries and indices have different ids.
use aca_py_did_kanon.Prelude.{
  ℕ, ◌≡◌, refl, sym, subst, [], ◌∷◌, ◌++◌, All, Bytes, append_left_cancel,
}
use aca_py_did_kanon.Prelude.Hex.{codes}
use aca_py_did_kanon.Prelude.Decimal.{to_dec, to_dec_inj, to_dec-IsDigit, IsDigit}
use aca_py_did_kanon.Anoncreds.RevregState.{meta_id, index_id, credex_id}

All-mid : (xs ys : Bytes) (c : ℕ) → All IsDigit (xs ++ c ∷ ys) → IsDigit c
All-mid [] ys c a = a.0
All-mid (x ∷ xs) ys c a = All-mid xs ys c a.1

colon_no_digit : IsDigit b':' → ⊥
colon_no_digit h = cc

-- A text is split at the last colon in one way.
last_colon :
    (r r' ds ds' : Bytes)
    → All IsDigit ds
    → All IsDigit ds'
    → (r ++ b':' ∷ ds) ≡ (r' ++ b':' ∷ ds')
    → (r ≡ r') × (ds ≡ ds')
last_colon [] [] ds ds' a a' h = (refl, tail h)
  where
    tail : {x y : ℕ} {xs ys : Bytes} → (x ∷ xs) ≡ (y ∷ ys) → xs ≡ ys
    tail h = cc
last_colon [] (c ∷ r') ds ds' a a' h =
    absurd (colon_no_digit (All-mid r' ds' b':' (subst (All IsDigit) (tail h) a)))
  where
    tail : {x y : ℕ} {xs ys : Bytes} → (x ∷ xs) ≡ (y ∷ ys) → xs ≡ ys
    tail h = cc
last_colon (c ∷ r) [] ds ds' a a' h =
    absurd (colon_no_digit (All-mid r ds b':' (subst (All IsDigit) (sym (tail h)) a')))
  where
    tail : {x y : ℕ} {xs ys : Bytes} → (x ∷ xs) ≡ (y ∷ ys) → xs ≡ ys
    tail h = cc
last_colon (c ∷ r) (c' ∷ r') ds ds' a a' h =
    let (same, rest) = last_colon r r' ds ds' a a' (tail h) in (cons (head h) same, rest)
  where
    tail : {x y : ℕ} {xs ys : Bytes} → (x ∷ xs) ≡ (y ∷ ys) → xs ≡ ys
    tail h = cc

    head : {x y : ℕ} {xs ys : Bytes} → (x ∷ xs) ≡ (y ∷ ys) → x ≡ y
    head h = cc

    cons : {x y : ℕ} {xs ys : Bytes} → x ≡ y → xs ≡ ys → (x ∷ xs) ≡ (y ∷ ys)
    cons h k = cc

-- The id of a record determines the registry and the index.
pub index_id_inj : (r r' : Bytes) (i j : ℕ) → index_id r i ≡ index_id r' j → (r ≡ r') × (i ≡ j)
unfolding index_id
index_id_inj r r' i j h =
    let cut = append_left_cancel (codes "kanon-revreg-index:") _ _ h in
    let (same, digits) =
      last_colon r r' (to_dec i) (to_dec j) (to_dec-IsDigit i) (to_dec-IsDigit j) cut in
    (same, to_dec_inj i j digits)

pub credex_id_inj : (x y : Bytes) → credex_id x ≡ credex_id y → x ≡ y
unfolding credex_id
credex_id_inj x y h = append_left_cancel (codes "kanon-credex-credid:") x y h

pub meta_id_inj : (x y : Bytes) → meta_id x ≡ meta_id y → x ≡ y
unfolding meta_id
meta_id_inj x y h = append_left_cancel (codes "kanon-revreg-meta:") x y h
