-- ===== src/Prelude/Words.antt =====
-- `int.from_bytes` and `int.to_bytes`.
use Prim.Native.Nat.{ℕ, zero, suc, ◌+◌, ◌*◌, ◌/◌, ◌%◌, ◌^◌, ◌≤◌, ◌<◌}
use mathlib.Core.Path.{◌≡◌, refl, ◌∙◌, ap}
use mathlib.Core.List.{[], ◌∷◌, ◌++◌}
use native.Mathlib.Omega.{arith}
use native.Mathlib.Nat.{pow-suc}
use aca_py_did_kanon.Prelude.Tests.{ltb, if◌then◌else◌}
use aca_py_did_kanon.Prelude.Lists.{length, length-append, All, All-append}
use aca_py_did_kanon.Prelude.ByteList.{Bytes}
use aca_py_did_kanon.Prelude.Exceptions.{Result, ok, err, overflow_error}
use aca_py_did_kanon.Prelude.Hex.{IsByte}

-- `int.from_bytes(bs, "big")`, after the bytes that `acc` stands for.
unfoldable pub from_be_acc : ℕ → Bytes → ℕ
from_be_acc acc [] = acc
from_be_acc acc (b ∷ bs) = from_be_acc (acc * 256 + b) bs

unfoldable pub from_be : Bytes → ℕ
from_be = from_be_acc 0

-- `int.from_bytes(bs, "little")`
unfoldable pub from_le : Bytes → ℕ
from_le [] = 0
from_le (b ∷ bs) = b + 256 * from_le bs

-- The last `n` bytes of a number, least significant first or last.
unfoldable pub to_le : ℕ → ℕ → Bytes
to_le zero x = []
to_le (suc n) x = x % 256 ∷ to_le n (x / 256)

unfoldable pub to_be : ℕ → ℕ → Bytes
to_be zero x = []
to_be (suc n) x = to_be n (x / 256) ++ x % 256 ∷ []

-- `x.to_bytes(n, "big")` raises OverflowError where the number does not fit.
unfoldable pub to_bytes_be : ℕ → ℕ → Result Bytes
to_bytes_be n x = if ltb x (256 ^ n) then ok (to_be n x) else err overflow_error

pub length-to_be : (n x : ℕ) → length (to_be n x) ≡ n
unfolding to_be
length-to_be zero x = refl
length-to_be (suc n) x =
    omega (arith, length-append (to_be n (x / 256)) (x % 256 ∷ []), length-to_be n (x / 256))

pub to_be-IsByte : (n x : ℕ) → All IsByte (to_be n x)
unfolding to_be
to_be-IsByte zero x = tt
to_be-IsByte (suc n) x =
    All-append IsByte (to_be n (x / 256)) (x % 256 ∷ []) (to_be-IsByte n (x / 256)) (omega arith)

from_be_acc-append :
    (acc : ℕ) (xs : Bytes) (b : ℕ) → from_be_acc acc (xs ++ b ∷ []) ≡ from_be_acc acc xs * 256 + b
unfolding from_be_acc
from_be_acc-append acc [] b = refl
from_be_acc-append acc (x ∷ xs) b = from_be_acc-append (acc * 256 + x) xs b

div-lt_pow : (n x : ℕ) → x < 256 ^ suc n → x / 256 < 256 ^ n
div-lt_pow n x h = omega (arith, pow-suc 256 n)

-- Reading back what was written, for a number that fits.
pub from_be-to_be : (n x : ℕ) → x < 256 ^ n → from_be (to_be n x) ≡ x
unfolding from_be to_be from_be_acc
from_be-to_be zero x h = omega arith
from_be-to_be (suc n) x h =
    from_be_acc-append 0 (to_be n (x / 256)) (x % 256)
    ∙ omega (arith, from_be-to_be n (x / 256) (div-lt_pow n x h))

pub from_le-to_le : (n x : ℕ) → x < 256 ^ n → from_le (to_le n x) ≡ x
unfolding from_le to_le
from_le-to_le zero x h = omega arith
from_le-to_le (suc n) x h = omega (arith, from_le-to_le n (x / 256) (div-lt_pow n x h))

pub length-to_le : (n x : ℕ) → length (to_le n x) ≡ n
unfolding to_le
length-to_le zero x = refl
length-to_le (suc n) x = ap suc (length-to_le n (x / 256))

pub to_le-IsByte : (n x : ℕ) → All IsByte (to_le n x)
unfolding to_le
to_le-IsByte zero x = tt
to_le-IsByte (suc n) x = (omega arith, to_le-IsByte n (x / 256))

from_be_acc-lt :
    (acc n : ℕ) (bs : Bytes)
    → All IsByte bs
    → length bs ≡ n
    → from_be_acc acc bs < (acc + 1) * 256 ^ n
unfolding from_be_acc
from_be_acc-lt acc zero [] h e = omega arith
from_be_acc-lt acc (suc n) [] h e = absurd (omega arith)
from_be_acc-lt acc zero (b ∷ bs) h e = absurd (omega arith)
from_be_acc-lt acc (suc n) (b ∷ bs) h e =
    let rest : from_be_acc acc (b ∷ bs) < (acc * 256 + b + 1) * 256 ^ n =
      from_be_acc-lt (acc * 256 + b) n bs h.1 (omega arith) in
    let widen : (acc + 1) * 256 ^ suc n ≡ (acc * 256 + 256) * 256 ^ n =
      rw (pow-suc 256 n) (omega arith) in
    let room : (acc * 256 + b + 1) * 256 ^ n ≤ (acc * 256 + 256) * 256 ^ n = grind arith in
    omega (arith, rest, room, widen)

pub from_be-lt : (bs : Bytes) → All IsByte bs → from_be bs < 256 ^ length bs
unfolding from_be
from_be-lt bs h = omega (arith, from_be_acc-lt 0 (length bs) bs h refl)
