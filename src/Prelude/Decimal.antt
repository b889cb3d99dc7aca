-- ===== src/Prelude/Decimal.antt =====
-- `str(n)` and `int(text)` on natural numbers.
use Prim.Native.Nat.{ℕ, zero, suc, ◌+◌, ◌-◌, ◌*◌, ◌/◌, ◌%◌, ◌<◌, ◌≤◌}
use mathlib.Core.Path.{◌≡◌, refl, sym, ap, ◌∙◌}
use mathlib.Core.Bool.{Bool, true, false, ◌&&◌}
use mathlib.Core.List.{[], ◌∷◌, ◌++◌}
use mathlib.Core.Logic.{inl, inr, ◌≢◌}
use native.Mathlib.Omega.{arith}
use aca_py_did_kanon.Prelude.Tests.{ltb, leb, if◌then◌else◌, Bool-cases}
use aca_py_did_kanon.Prelude.Lists.{All, All-append}
use aca_py_did_kanon.Prelude.ByteList.{Bytes}
use aca_py_did_kanon.Prelude.Exceptions.{Result, ok, err, value_error}

-- The digits of a number below `10 ^ fuel`, at least one.
unfoldable pub dec_digits : ℕ → ℕ → Bytes
dec_digits zero n = []
dec_digits (suc fuel) n =
    let front = dec_digits fuel (n / 10) in
    let digit = b'0' + n % 10 in if ltb n 10 then digit ∷ [] else front ++ digit ∷ []

-- A number is below ten to its own power plus one.
unfoldable pub to_dec : ℕ → Bytes
to_dec n = dec_digits (suc n) n

abbrev is_digit : ℕ → Bool
is_digit c = leb b'0' c && leb c b'9'

-- A text with a sign, white space or underscores is left out.
unfoldable pub from_dec_acc : ℕ → Bytes → Result ℕ
from_dec_acc acc [] = ok acc
from_dec_acc acc (c ∷ cs) = elim (is_digit c) [
  | true ↦ from_dec_acc (acc * 10 + (c - b'0')) cs
  | false ↦ err value_error
]

unfoldable pub from_dec : Bytes → Result ℕ
from_dec [] = err value_error
from_dec (c ∷ cs) = from_dec_acc 0 (c ∷ cs)

abbrev pub IsDigit : ℕ → Type 0
IsDigit c = is_digit c ≡ true

digit-IsDigit : (n : ℕ) → is_digit (b'0' + n % 10) ≡ true
digit-IsDigit n = ground arith

pub dec_digits-IsDigit : (fuel n : ℕ) → All IsDigit (dec_digits fuel n)
unfolding dec_digits
dec_digits-IsDigit zero n = tt
dec_digits-IsDigit (suc fuel) n = elim (Bool-cases (ltb n 10)) [
  | inl small ↦ rw (small, dec_digits) (digit-IsDigit n, tt)
  | inr big ↦
      rw (big, dec_digits)
        (All-append IsDigit (dec_digits fuel (n / 10)) ((b'0' + n % 10) ∷ [])
          (dec_digits-IsDigit fuel (n / 10)) (digit-IsDigit n, tt))
]

from_dec_acc-append :
    (acc m : ℕ) (xs : Bytes) (c : ℕ)
    → from_dec_acc acc xs ≡ ok m
    → IsDigit c
    → from_dec_acc acc (xs ++ c ∷ []) ≡ ok (m * 10 + (c - b'0'))
unfolding from_dec_acc
from_dec_acc-append acc m [] c h d = ground arith
from_dec_acc-append acc m (x ∷ xs) c h d =
    ground (arith, from_dec_acc-append (acc * 10 + (x - b'0')) m xs c)

from_dec_acc-digits : (fuel n : ℕ) → n < fuel → from_dec_acc 0 (dec_digits fuel n) ≡ ok n
unfolding dec_digits from_dec_acc
from_dec_acc-digits zero n h = elim h [ ]
from_dec_acc-digits (suc fuel) n h = elim (Bool-cases (ltb n 10)) [
  | inl small ↦
      let lt : n < 10 = ground arith in
      let digit : is_digit (b'0' + n % 10) ≡ true = digit-IsDigit n in
      rw (small, dec_digits, digit, from_dec_acc) (ap ok (omega arith))
  | inr big ↦
      let ge : 10 ≤ n = ground arith in
      let whole : n / 10 * 10 + (b'0' + n % 10 - b'0') ≡ n = omega arith in
      rw (big, dec_digits)
        (from_dec_acc-append 0 (n / 10) (dec_digits fuel (n / 10)) (b'0' + n % 10)
            (from_dec_acc-digits fuel (n / 10) (omega arith)) (digit-IsDigit n)
          ∙ ap ok whole)
]

dec_digits-nonempty : (fuel n : ℕ) → dec_digits (suc fuel) n ≢ []
unfolding dec_digits
dec_digits-nonempty fuel n h = elim (Bool-cases (ltb n 10)) [
  | inl small ↦ absurd (cons_ne_nil (sym (rw (small, dec_digits) refl) ∙ h))
  | inr big ↦ absurd (snoc_ne_nil (dec_digits fuel (n / 10)) (sym (rw (big, dec_digits) refl) ∙ h))
]
  where
    cons_ne_nil : ((b'0' + n % 10) ∷ []) ≡ [] → ⊥
    cons_ne_nil h = cc

    snoc_ne_nil : (xs : Bytes) → (xs ++ (b'0' + n % 10) ∷ []) ≡ [] → ⊥
    snoc_ne_nil [] h = cc
    snoc_ne_nil (x ∷ xs) h = cc

-- Reading what `str` wrote gives the number back.
pub from_dec-to_dec : (n : ℕ) → from_dec (to_dec n) ≡ ok n
unfolding from_dec to_dec
from_dec-to_dec n =
    go (to_dec n) (from_dec_acc-digits (suc n) n (omega arith)) (dec_digits-nonempty n n)
  where
    go : (t : Bytes) → from_dec_acc 0 t ≡ ok n → t ≢ [] → from_dec t ≡ ok n
    go [] h ne = absurd (ne refl)
    go (c ∷ cs) h ne = h

pub to_dec-IsDigit : (n : ℕ) → All IsDigit (to_dec n)
unfolding to_dec
to_dec-IsDigit n = dec_digits-IsDigit (suc n) n

pub to_dec_inj : (m n : ℕ) → to_dec m ≡ to_dec n → m ≡ n
to_dec_inj m n h = ok_inj (sym (from_dec-to_dec m) ∙ ap from_dec h ∙ from_dec-to_dec n)
  where
    ok_inj : {a b : ℕ} → ok a ≡ ok b → a ≡ b
    ok_inj h = cc
