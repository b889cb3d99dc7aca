-- ===== src/Prelude/Text.antt =====
-- `str.strip` and `str.upper` on ASCII texts, and `int(text)`.
use Prim.Native.Nat.{ℕ, zero, suc, ◌+◌, ◌-◌, ◌*◌}
use mathlib.Core.Bool.{Bool, true, false, ◌&&◌, ◌||◌}
use mathlib.Core.List.{[], ◌∷◌, map}
use aca_py_did_kanon.Prelude.Tests.{leb, ◌==◌, if◌then◌else◌}
use aca_py_did_kanon.Prelude.ByteList.{Bytes}
use aca_py_did_kanon.Prelude.Exceptions.{Result, ok, err, value_error, ◌>>=◌}

-- White space to `strip`.
abbrev pub is_white : ℕ → Bool
is_white c = c == 32 || (leb 9 c && leb c 13) || (leb 28 c && leb c 31)

abbrev pub is_empty : Bytes → Bool
is_empty [] = true
is_empty (c ∷ cs) = false

unfoldable pub strip_left : Bytes → Bytes
strip_left [] = []
strip_left (c ∷ cs) = let rest = strip_left cs in if is_white c then rest else c ∷ cs

unfoldable pub strip_right : Bytes → Bytes
strip_right [] = []
strip_right (c ∷ cs) =
    let rest = strip_right cs in if is_empty rest && is_white c then [] else c ∷ rest

-- `s.strip()`
unfoldable pub strip : Bytes → Bytes
unfolding strip_left strip_right
strip s = strip_right (strip_left s)

unfoldable pub upper_char : ℕ → ℕ
upper_char c = if leb b'a' c && leb c b'z' then c - 32 else c

-- `s.upper()`
unfoldable pub upper : Bytes → Bytes
unfolding upper_char
upper = map upper_char

-- `negsuc n` is -(n + 1).
pub data ℤ : Type 0 where
  pos : ℕ → ℤ
  negsuc : ℕ → ℤ

abbrev negate : ℕ → ℤ
negate zero = pos 0
negate (suc n) = negsuc n

-- Digits with single underscores between them; `after` says that a digit stands before.
unfoldable pub digits_value : Bool → ℕ → Bytes → Result ℕ
digits_value after acc [] = if after then ok acc else err value_error
digits_value after acc (c ∷ cs) =
    let digit = digits_value true (acc * 10 + (c - b'0')) cs in
    let gap = digits_value false acc cs in
    if leb b'0' c && leb c b'9' then digit else if after && c == b'_' then gap else err value_error

-- `int(s)`
unfoldable pub signed_value : Bytes → Result ℤ
unfolding digits_value
signed_value [] = err value_error
signed_value (c ∷ cs) =
    if c == b'-'
    then (do n ← digits_value false 0 cs; ok (negate n))
    else if c == b'+'
    then (do n ← digits_value false 0 cs; ok (pos n))
    else (do n ← digits_value false 0 (c ∷ cs); ok (pos n))

unfoldable pub int_of : Bytes → Result ℤ
unfolding strip signed_value
int_of s = signed_value (strip s)
