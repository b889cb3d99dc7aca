-- ===== src/Config/Values.antt =====
-- The parsers of single settings: integers, org ids and policy masks.
use aca_py_did_kanon.Prelude.{
  ℕ, Bool, true, false, ◌&&◌, ◌||◌, Option, none, some, List, [], ◌∷◌, leb, if◌then◌else◌, Bytes,
  bytes_eq, Result, ok, err, config_error,
}
use aca_py_did_kanon.Prelude.Hex.{codes, lower}
use aca_py_did_kanon.Prelude.Text.{ℤ, pos, negsuc, is_empty, strip, upper, int_of}
use aca_py_did_kanon.Prelude.Value.{Value, null, boolean, number, string, array, object}
use aca_py_did_kanon.Identifiers.{take_handle}

-- `int(raw)` under the `try`.
unfoldable pub int_text : Bytes → Result (Option ℤ)
int_text [] = ok none
int_text (c ∷ cs) = elim (int_of (c ∷ cs)) [ ok n ↦ ok (some n) | err e ↦ err config_error ]

-- `_int_or_none`
unfoldable pub int_or_none : Value → Result (Option ℤ)
unfolding int_text
int_or_none null = ok none
int_or_none (boolean true) = ok (some (pos 1))
int_or_none (boolean false) = ok (some (pos 0))
int_or_none (number n) = ok (some n)
int_or_none (string s) = int_text (strip s)
int_or_none (array vs) = err config_error
int_or_none (object fs) = err config_error

-- `re.fullmatch(r"0x[0-9a-fA-F]{64}", s)`
unfoldable pub is_org_id : Bytes → Bool
unfolding take_handle
is_org_id s = elim (take_handle s) [ none ↦ false | some r ↦ is_empty r.1 ]

unfoldable pub org_id_text : Bytes → Result (Option Bytes)
unfolding is_org_id
org_id_text [] = ok none
org_id_text (c ∷ cs) = if is_org_id (c ∷ cs) then ok (some (lower (c ∷ cs))) else err config_error

-- `_org_id_or_none`: the text of a value other than a string is no org id.
unfoldable pub org_id_or_none : Value → Result (Option Bytes)
unfolding org_id_text
org_id_or_none null = ok none
org_id_or_none (string s) = org_id_text (strip s)
org_id_or_none (boolean b) = err config_error
org_id_or_none (number n) = err config_error
org_id_or_none (array vs) = err config_error
org_id_or_none (object fs) = err config_error

abbrev one_of : Bytes → List Bytes → Bool
one_of t [] = false
one_of t (u ∷ us) = bytes_eq t u || one_of t us

-- The mask that a token names.
unfoldable pub mask_of_token : Bytes → Result ℕ
mask_of_token token =
    if one_of token (codes "1" ∷ codes "TIER_ONE_TIME" ∷ codes "ONE_TIME" ∷ [])
    then ok 1
    else if one_of token (codes "2" ∷ codes "TIER_ZK_SNARK" ∷ codes "ZK_SNARK" ∷ codes "ZK" ∷ [])
    then ok 2
    else if one_of token (codes "3" ∷ codes "TIER_ALL" ∷ codes "ALL" ∷ [])
    then ok 3
    else err config_error

-- `_VALID_POLICY_MASKS`
unfoldable pub mask_of_number : ℤ → Result ℕ
mask_of_number (pos n) = if leb 1 n && leb n 3 then ok n else err config_error
mask_of_number (negsuc n) = err config_error

unfoldable pub mask_of_text : Bytes → ℕ → Result ℕ
unfolding mask_of_token
mask_of_text [] fallback = ok fallback
mask_of_text (c ∷ cs) fallback = mask_of_token (upper (c ∷ cs))

-- `_policy_mask_or_default`
unfoldable pub policy_mask_or_default : Value → ℕ → Result ℕ
unfolding mask_of_text mask_of_number
policy_mask_or_default null fallback = ok fallback
policy_mask_or_default (string s) fallback = mask_of_text (strip s) fallback
policy_mask_or_default (boolean true) fallback = ok 1
policy_mask_or_default (boolean false) fallback = err config_error
policy_mask_or_default (number n) fallback = mask_of_number n
policy_mask_or_default (array vs) fallback = err config_error
policy_mask_or_default (object fs) fallback = err config_error
