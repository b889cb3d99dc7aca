-- ===== src/Prelude/Hex.antt =====
-- `bytes.hex()`, `bytes.fromhex`, `str.lower` and `str.startswith` on texts as lists of code points.
use Prim.Native.Char.{code}
use Prim.Native.String.{String}
use aca_py_did_kanon.Prelude.Tests.{ltb, leb, ◌==◌, if◌then◌else◌}
use aca_py_did_kanon.Prelude.Lists.{length, All}
use aca_py_did_kanon.Prelude.ByteList.{Bytes}
use aca_py_did_kanon.Prelude.Exceptions.{Result, ok, err, value_error, ◌>>=◌}
use Prim.Native.Nat.{ℕ, ◌+◌, ◌-◌, ◌*◌, ◌/◌, ◌%◌, ◌<◌}
use mathlib.Core.Path.{◌≡◌, refl}
use mathlib.Core.Bool.{Bool, true, false, ◌&&◌, ◌||◌}
use mathlib.Core.List.{[], ◌∷◌, map}
use native.Mathlib.Omega.{arith}

-- The code points of a literal.
abbrev pub codes : String → Bytes
codes String.[] = []
codes (String.◌∷◌ c s) = code c ∷ codes s

-- A digit of lowercase hex.
unfoldable pub hex_char : ℕ → ℕ
hex_char n = if ltb n 10 then b'0' + n else b'a' + (n - 10)

unfoldable pub to_hex : Bytes → Bytes
to_hex [] = []
to_hex (b ∷ bs) = hex_char (b / 16) ∷ hex_char (b % 16) ∷ to_hex bs

unfoldable pub hex_digit : ℕ → Result ℕ
hex_digit c =
    if leb b'0' c && leb c b'9'
    then ok (c - b'0')
    else if leb b'a' c && leb c b'f'
    then ok (c - b'a' + 10)
    else if leb b'A' c && leb c b'F'
    then ok (c - b'A' + 10)
    else err value_error

-- ASCII white space, which `fromhex` skips between two bytes.
unfoldable pub is_space : ℕ → Bool
is_space c = c == 32 || leb 9 c && leb c 13

unfoldable pub from_hex : Bytes → Result Bytes
from_hex [] = ok []
from_hex (c ∷ []) = if is_space c then ok [] else err value_error
from_hex (c ∷ d ∷ rest) = elim (is_space c) [
  | true ↦ from_hex (d ∷ rest)
  | false ↦ do hi ← hex_digit c; lo ← hex_digit d; bs ← from_hex rest; ok ((hi * 16 + lo) ∷ bs)
]

-- `str.lower` on ASCII letters.
unfoldable pub lower_char : ℕ → ℕ
lower_char c = if leb b'A' c && leb c b'Z' then c + 32 else c

unfoldable pub lower : Bytes → Bytes
lower = map lower_char

unfoldable pub starts_with : Bytes → Bytes → Bool
starts_with [] text = true
starts_with (p ∷ ps) [] = false
starts_with (p ∷ ps) (c ∷ cs) = p == c && starts_with ps cs

abbrev pub IsByte : ℕ → Type 0
IsByte b = b < 256

hex_digit-hex_char : (n : ℕ) → n < 16 → hex_digit (hex_char n) ≡ ok n
unfolding hex_digit hex_char
hex_digit-hex_char n h = ground arith

is_space-hex_char : (n : ℕ) → n < 16 → is_space (hex_char n) ≡ false
unfolding is_space hex_char
is_space-hex_char n h = ground arith

-- Decoding the hex form of bytes gives them back.
pub from_hex-to_hex : (bs : Bytes) → All IsByte bs → from_hex (to_hex bs) ≡ ok bs
unfolding from_hex to_hex
from_hex-to_hex [] h = refl
from_hex-to_hex (b ∷ bs) h =
    let whole : b / 16 * 16 + b % 16 ≡ b = omega arith in
    rw (
      is_space-hex_char (b / 16) (omega arith),
      hex_digit-hex_char (b / 16) (omega arith),
      hex_digit-hex_char (b % 16) (omega arith),
      from_hex-to_hex bs h.1,
      whole,
      from_hex,
    )

lower_char-hex_char : (n : ℕ) → n < 16 → lower_char (hex_char n) ≡ hex_char n
unfolding lower_char hex_char
lower_char-hex_char n h = ground arith

pub lower-to_hex : (bs : Bytes) → All IsByte bs → lower (to_hex bs) ≡ to_hex bs
unfolding lower to_hex
lower-to_hex [] h = refl
lower-to_hex (b ∷ bs) h = rw (
  lower_char-hex_char (b / 16) (omega arith),
  lower_char-hex_char (b % 16) (omega arith),
  lower-to_hex bs h.1,
)

pub length-to_hex : (bs : Bytes) → length (to_hex bs) ≡ 2 * length bs
unfolding to_hex
length-to_hex [] = refl
length-to_hex (b ∷ bs) = omega (arith, length-to_hex bs)
