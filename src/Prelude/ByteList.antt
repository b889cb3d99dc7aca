-- ===== src/Prelude/ByteList.antt =====
-- Bytes and texts as lists of numbers: Python's `==` and `<` on `bytes`.
use Prim.Native.Nat.{ℕ}
use mathlib.Core.Path.{◌≡◌, refl}
use mathlib.Core.Logic.{◌↔◌}
use mathlib.Core.Bool.{Bool, true, false, ◌&&◌}
use mathlib.Core.List.{List, [], ◌∷◌, ◌++◌}
use native.Mathlib.Omega.{arith}
use aca_py_did_kanon.Prelude.Tests.{ltb, ◌==◌, if◌then◌else◌}

abbrev pub Bytes : Type 0
Bytes = List ℕ

unfoldable pub bytes_eq : Bytes → Bytes → Bool
bytes_eq [] [] = true
bytes_eq [] (b ∷ bs) = false
bytes_eq (a ∷ as') [] = false
bytes_eq (a ∷ as') (b ∷ bs) = a == b && bytes_eq as' bs

-- The lexicographic order.
unfoldable pub bytes_lt : Bytes → Bytes → Bool
bytes_lt [] [] = false
bytes_lt [] (b ∷ bs) = true
bytes_lt (a ∷ as') [] = false
bytes_lt (a ∷ as') (b ∷ bs) =
    let rest = bytes_lt as' bs in if ltb a b then true else if a == b then rest else false

pub bytes_eq→eq : (a b : Bytes) → bytes_eq a b ≡ true → a ≡ b
unfolding bytes_eq
bytes_eq→eq [] [] h = refl
bytes_eq→eq [] (b ∷ bs) h = cc
bytes_eq→eq (a ∷ as') [] h = cc
bytes_eq→eq (a ∷ as') (b ∷ bs) h = ground (arith, bytes_eq→eq as' bs)

pub bytes_eq_refl : (a : Bytes) → bytes_eq a a ≡ true
unfolding bytes_eq
bytes_eq_refl [] = refl
bytes_eq_refl (a ∷ as') = ground (arith, bytes_eq_refl as')

pub bytes_eq_iff : (a b : Bytes) → (bytes_eq a b ≡ true) ↔ (a ≡ b)
bytes_eq_iff a b = (bytes_eq→eq a b, λ e. ground (arith, bytes_eq_refl a))

pub bytes_lt_asymm : (a b : Bytes) → bytes_lt a b ≡ true → bytes_lt b a ≡ false
unfolding bytes_lt
bytes_lt_asymm [] [] h = refl
bytes_lt_asymm [] (b ∷ bs) h = refl
bytes_lt_asymm (a ∷ as') [] h = cc
bytes_lt_asymm (a ∷ as') (b ∷ bs) h = ground (arith, bytes_lt_asymm as' bs)

pub eq_of_not_lt : (a b : Bytes) → bytes_lt a b ≡ false → bytes_lt b a ≡ false → a ≡ b
unfolding bytes_lt
eq_of_not_lt [] [] h k = refl
eq_of_not_lt [] (b ∷ bs) h k = cc
eq_of_not_lt (a ∷ as') [] h k = cc
eq_of_not_lt (a ∷ as') (b ∷ bs) h k = ground (arith, eq_of_not_lt as' bs)

pub append_left_cancel : (p xs ys : Bytes) → p ++ xs ≡ p ++ ys → xs ≡ ys
append_left_cancel [] xs ys h = h
append_left_cancel (c ∷ p) xs ys h = append_left_cancel p xs ys (tail h)
  where
    tail : {a : ℕ} {as' bs : Bytes} → (a ∷ as') ≡ (a ∷ bs) → as' ≡ bs
    tail h = cc
