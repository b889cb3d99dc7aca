-- ===== src/Zk/IssuerKey/Ids.antt =====
-- `_normalize_cred_def_id` and the record ids.
use aca_py_did_kanon.Prelude.{
  ℕ, ◌%◌, ◌/◌, ◌<◌, ◌≡◌, refl, ap, ◌∙◌, true, false, some, [], ◌∷◌, ◌++◌, arith, ◌==◌, length, All,
  Bytes, append_left_cancel, ok, Bool-cases, inl, inr,
}
use aca_py_did_kanon.Prelude.Hex.{
  codes, to_hex, hex_char, lower, lower_char, starts_with, IsByte, lower-to_hex, length-to_hex,
}
use aca_py_did_kanon.Contracts.Convert.{raw, text}
use aca_py_did_kanon.Zk.IssuerKey.{
  start, digit, hex_step, is_hex_text, with_0x, checked, normalize_cred_def_id, record_id,
}

hex_step-hex_char :
    (n : ℕ)
    → n < 16
    → (hex_step start (hex_char n) ≡ some digit) × (hex_step digit (hex_char n) ≡ some digit)
unfolding hex_step hex_char
hex_step-hex_char n h = (ground arith, ground arith)

is_hex_text-digits : (b : Bytes) → All IsByte b → is_hex_text digit (to_hex b) ≡ true
unfolding is_hex_text to_hex
is_hex_text-digits [] a = refl
is_hex_text-digits (x ∷ b) a =
    let hi = (hex_step-hex_char (x / 16) (omega arith)).1 in
    let lo = (hex_step-hex_char (x % 16) (omega arith)).1 in
    rw (hi, lo, is_hex_text-digits b a.1, is_hex_text) refl

is_hex_text-to_hex : (b : Bytes) → All IsByte b → 0 < length b → is_hex_text start (to_hex b) ≡ true
unfolding is_hex_text to_hex
is_hex_text-to_hex [] a h = elim h [ ]
is_hex_text-to_hex (x ∷ b) a h =
    let hi = (hex_step-hex_char (x / 16) (omega arith)).0 in
    let lo = (hex_step-hex_char (x % 16) (omega arith)).1 in
    rw (hi, lo, is_hex_text-digits b a.1, is_hex_text) refl

hex_char_ne_x : (n : ℕ) → n < 16 → (b'x' == hex_char n) ≡ false
unfolding hex_char
hex_char_ne_x n h = ground arith

with_0x-to_hex : (b : Bytes) → with_0x (to_hex b) ≡ codes "0x" ++ to_hex b
unfolding with_0x starts_with to_hex
with_0x-to_hex [] = refl
with_0x-to_hex (x ∷ b) = elim (Bool-cases (b'0' == hex_char (x / 16))) [
  | inl zero_first ↦
      rw (zero_first, hex_char_ne_x (x % 16) (omega arith), with_0x, starts_with) refl
  | inr other ↦ rw (other, with_0x, starts_with) refl
]

lower-prefixed :
    (b : Bytes) → All IsByte b → lower (codes "0x" ++ to_hex b) ≡ codes "0x" ++ to_hex b
unfolding lower lower_char
lower-prefixed b a = ap (λ t. codes "0x" ++ t) (lower-to_hex b a)

with_0x-prefixed : (t : Bytes) → with_0x (codes "0x" ++ t) ≡ codes "0x" ++ t
unfolding with_0x starts_with
with_0x-prefixed t = refl

checked-to_hex :
    (b : Bytes)
    → All IsByte b
    → length b ≡ 32
    → checked (codes "0x" ++ to_hex b) ≡ ok (codes "0x" ++ to_hex b)
unfolding checked
checked-to_hex b a l =
    let digits : (length (codes "0x" ++ to_hex b) == 66) ≡ true =
      let n = length-to_hex b in ground arith in
    let valid : is_hex_text start (to_hex b) ≡ true = is_hex_text-to_hex b a (omega arith) in
    rw (digits, valid) refl

-- A credDef id of 32 bytes and its hex form, with or without the prefix, have the same key: `0x` and
-- 64 lowercase digits.
pub normalize_forms :
    (b : Bytes)
    → All IsByte b
    → length b ≡ 32
    → (normalize_cred_def_id (raw b) ≡ ok (codes "0x" ++ to_hex b))
      × (normalize_cred_def_id (text (codes "0x" ++ to_hex b)) ≡ ok (codes "0x" ++ to_hex b))
      × (normalize_cred_def_id (text (to_hex b)) ≡ ok (codes "0x" ++ to_hex b))
unfolding normalize_cred_def_id
normalize_forms b a l =
    let full : (length b == 32) ≡ true = ground arith in
    (
      rw full refl,
      ap checked (ap with_0x (lower-prefixed b a) ∙ with_0x-prefixed (to_hex b))
          ∙ checked-to_hex b a l,
      ap checked (ap with_0x (lower-to_hex b a) ∙ with_0x-to_hex b) ∙ checked-to_hex b a l,
    )

pub record_id_inj : (x y : Bytes) → record_id x ≡ record_id y → x ≡ y
unfolding record_id
record_id_inj x y h = append_left_cancel (codes "kanon-zk-issuer-key:") x y h
