-- ===== src/Zk/Eddsa.antt =====
-- zk/eddsa.py: EdDSA with Poseidon over Baby Jubjub. The curve and the tables of the hash are arguments.
pub mod Honest
pub mod Base64
pub mod Codec
mod Tests
use Prim.Native.Nat.{bit_and, bit_or}
use aca_py_did_kanon.Prelude.{
  ℕ, ◌+◌, ◌*◌, ◌/◌, ◌%◌, ◌^◌, Bool, true, false, not, ◌&&◌, ◌||◌, List, [], ◌∷◌, ◌++◌, leb, ◌==◌,
  if◌then◌else◌, length, get_or, set, take, drop, Bytes, Result, ok, err, value_error, ◌>>=◌, ◌>>◌,
  raise_if,
}
use aca_py_did_kanon.Prelude.Hex.{codes, from_hex, to_hex, lower, starts_with}
use aca_py_did_kanon.Prelude.Words.{from_le, to_le, to_bytes_be, from_be}
use aca_py_did_kanon.Zk.Poseidon.{Constants, poseidon_hash}
use aca_py_did_kanon.Zk.Blake1.{blake512}
use aca_py_did_kanon.Zk.BabyJubjub.{Point, Curve, sub_order, add, mul, in_curve}
use aca_py_did_kanon.Zk.IssuerKey.{IssuerKey}
use aca_py_did_kanon.Zk.Eddsa.Base64.{b64encode, b64decode}

pub record KanonZkSignature : Type 0 where
  pub r8_x : ℕ
  pub r8_y : ℕ
  pub s : ℕ

-- `_prune`
unfoldable pub prune : Bytes → Result Bytes
prune buf32 = do
  raise_if (not (length buf32 == 32)) value_error
  ok (
      set (set buf32 0 (bit_and (get_or buf32 0 0) 0xF8)) 31
        (bit_or (bit_and (get_or buf32 31 0) 0x7F) 0x40))

-- `(value % P).to_bytes(32, "little")`, where `P` is below 2^256.
unfoldable pub felt_to_le32 : Curve → ℕ → Bytes
felt_to_le32 c value = to_le 32 (value % c.p)

abbrev pub has_0x : Bytes → Bool
has_0x hex = starts_with (codes "0x") (lower hex)

-- The key's bytes, of which there are 32.
unfoldable pub private_bytes : Bytes → Result Bytes
unfolding starts_with
private_bytes private_key_hex = do
  sk_bytes ←
      (if has_0x private_key_hex
        then from_hex (drop 2 private_key_hex)
        else from_hex private_key_hex)
  raise_if (not (length sk_bytes == 32)) value_error
  ok sk_bytes

module _ (c : Curve) where
  unfoldable pub restore_issuer_key : Bytes → Result IssuerKey
  restore_issuer_key private_key_hex = do
    sk_bytes ← private_bytes private_key_hex
    h ← blake512 sk_bytes
    pruned ← prune (take 32 h)
    a ← mul c c.base8 (from_le pruned / 8)
    ok (record {
      private_key_hex =
          if has_0x private_key_hex then private_key_hex else codes "0x" ++ private_key_hex;
      a_x = a.0;
      a_y = a.1;
    })

  -- The random bytes are an argument.
  unfoldable pub generate_issuer_key : Bytes → Result IssuerKey
  unfolding restore_issuer_key
  generate_issuer_key sk = restore_issuer_key (codes "0x" ++ to_hex sk)

  unfoldable pub sign_poseidon : Constants → Bytes → ℕ → Result KanonZkSignature
  sign_poseidon k private_key_hex leaf = do
    sk_bytes ← private_bytes private_key_hex
    h ← blake512 sk_bytes
    pruned ← prune (take 32 h)
    a ← mul c c.base8 (from_le pruned / 8)
    r_buf ← blake512 (take 32 (drop 32 h) ++ felt_to_le32 c leaf)
    let r = from_le r_buf % sub_order c
    r8 ← mul c c.base8 r
    challenge ← poseidon_hash k (r8.0 ∷ r8.1 ∷ a.0 ∷ a.1 ∷ leaf % c.p ∷ [])
    ok (record { r8_x = r8.0; r8_y = r8.1; s = (r + challenge * from_le pruned) % sub_order c })

  -- `p == (0, 1)`
  abbrev pub is_identity : Point → Bool
  is_identity p = p.0 == 0 && p.1 == 1

  -- The tests before the equation.
  unfoldable pub is_refused : Point → KanonZkSignature → Bool
  is_refused public_key signature =
      leb (sub_order c) signature.s
      || signature.s == 0
      || is_identity (signature.r8_x, signature.r8_y)
      || is_identity public_key
      || not (in_curve c (signature.r8_x, signature.r8_y))
      || not (in_curve c public_key)

  unfoldable pub checked_equation : Constants → Point → ℕ → KanonZkSignature → Result Bool
  checked_equation k public_key leaf signature = do
    challenge ←
        poseidon_hash k
          (signature.r8_x ∷ signature.r8_y ∷ public_key.0 ∷ public_key.1 ∷ leaf % c.p ∷ [])
    p_left ← mul c c.base8 signature.s
    p_right_term ← mul c public_key (challenge * 8 % c.order)
    p_right ← add c (signature.r8_x, signature.r8_y) p_right_term
    ok (p_left.0 == p_right.0 && p_left.1 == p_right.1)

  unfoldable pub verify_poseidon : Constants → Point → ℕ → KanonZkSignature → Result Bool
  unfolding is_refused checked_equation
  verify_poseidon k public_key leaf signature =
      if is_refused public_key signature
      then ok false
      else checked_equation k public_key leaf signature

-- 96 bytes, most significant first, in base 64.
unfoldable pub encode_zk_signature : KanonZkSignature → Result Bytes
encode_zk_signature sig = do
  x ← to_bytes_be 32 sig.r8_x
  y ← to_bytes_be 32 sig.r8_y
  s ← to_bytes_be 32 sig.s
  ok (b64encode (x ++ (y ++ s)))

unfoldable pub decode_zk_signature : Bytes → Result KanonZkSignature
decode_zk_signature value = do
  buf ← b64decode value
  raise_if (not (length buf == 96)) value_error
  ok (record {
    r8_x = from_be (take 32 buf);
    r8_y = from_be (take 32 (drop 32 buf));
    s = from_be (take 32 (drop 64 buf));
  })
