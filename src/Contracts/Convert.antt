-- ===== src/Contracts/Convert.antt =====
-- The conversions `_to_bytes32` and `_to_bytes` that the registry clients share.
use aca_py_did_kanon.Prelude.{
  ◌≡◌, Bool, not, ◌||◌, List, [], ◌∷◌, arith, ◌==◌, if◌then◌else◌, length, drop, Bytes, Result, ok,
  value_error, ◌>>=◌, ◌>>◌, raise_if,
}
use aca_py_did_kanon.Prelude.Hex.{codes, from_hex, starts_with}

-- `Union[bytes, str]`
pub data BytesLike : Type 0 where
  raw : Bytes → BytesLike
  text : Bytes → BytesLike

abbrev has_0x : Bytes → Bool
has_0x s = starts_with (codes "0x") s || starts_with (codes "0X") s

unfoldable pub to_bytes : BytesLike → Result Bytes
unfolding starts_with
to_bytes (raw b) = ok b
to_bytes (text s) = if has_0x s then from_hex (drop 2 s) else from_hex s

unfoldable pub to_bytes32 : BytesLike → Result Bytes
unfolding to_bytes
to_bytes32 value = do b ← to_bytes value; raise_if (not (length b == 32)) value_error; ok b

-- `[_to_bytes32(b) for b in values]`
unfoldable pub to_bytes32_all : List BytesLike → Result (List Bytes)
to_bytes32_all [] = ok []
to_bytes32_all (v ∷ vs) = do b ← to_bytes32 v; bs ← to_bytes32_all vs; ok (b ∷ bs)

-- What converts to a word at all has 32 bytes.
pub length-to_bytes32 : (v : BytesLike) (b : Bytes) → to_bytes32 v ≡ ok b → length b ≡ 32
unfolding to_bytes32
length-to_bytes32 v b h = ground arith

-- Bytes stay what they are.
pub to_bytes32-raw : (b c : Bytes) → to_bytes32 (raw b) ≡ ok c → c ≡ b
unfolding to_bytes32 to_bytes
to_bytes32-raw b c h = ground arith
