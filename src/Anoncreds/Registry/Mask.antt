-- ===== src/Anoncreds/Registry/Mask.antt =====
-- anoncreds/registry.py: the masks that `_resolve_policy_mask` lets through.
use aca_py_did_kanon.Prelude.{
  ℕ, ◌≤◌, ◌≡◌, refl, Bool, true, false, ◌&&◌, arith, Option, none, some, List, [], ◌∷◌, leb,
  if◌then◌else◌, Bytes, config_error, Result, ok, Ensures, returned, raised, after, Ensures-ok,
  registration_error, ◌>>=◌,
}
use aca_py_did_kanon.Prelude.Text.{ℤ, pos, negsuc, strip, upper}
use aca_py_did_kanon.Prelude.Value.{
  Value, Fields, null, boolean, number, string, array, object, get_field,
}
use aca_py_did_kanon.Config.Values.{mask_of_token, mask_of_number}
use aca_py_did_kanon.Anoncreds.Registry.{
  coerce, mask_keys, mask_option, resolve_policy_mask, as_mask,
}

abbrev pub IsMask : ℕ → Type 0
IsMask n = (1 ≤ n) × (n ≤ 3)

abbrev GivesMask : Option ℕ → Type 0
GivesMask none = Unit
GivesMask (some n) = IsMask n

Ensures-if :
    {P : ℕ → Type 0} (b : Bool) (x y : Result ℕ)
    → (b ≡ true → Ensures P x)
    → Ensures P y
    → Ensures P (if b then x else y)
Ensures-if true x y h g = h refl
Ensures-if false x y h g = g

one-IsMask : IsMask 1
one-IsMask = (omega arith, omega arith)

two-IsMask : IsMask 2
two-IsMask = (omega arith, omega arith)

three-IsMask : IsMask 3
three-IsMask = (omega arith, omega arith)

mask_of_token-IsMask : (token : Bytes) → Ensures IsMask (mask_of_token token)
unfolding mask_of_token
mask_of_token-IsMask token =
    Ensures-if _ _ _ (λ e. returned 1 one-IsMask)
      (Ensures-if _ _ _ (λ e. returned 2 two-IsMask)
        (Ensures-if _ _ _ (λ e. returned 3 three-IsMask) (raised config_error)))

mask_of_number-IsMask : (n : ℤ) → Ensures IsMask (mask_of_number n)
unfolding mask_of_number
mask_of_number-IsMask (pos n) =
    Ensures-if (leb 1 n && leb n 3) (ok n) _ (λ e. returned n (in_range n e)) (raised config_error)
  where
    in_range : (n : ℕ) → (leb 1 n && leb n 3) ≡ true → IsMask n
    in_range n e = (ground arith, ground arith)
mask_of_number-IsMask (negsuc n) = raised config_error

as_mask-GivesMask : {r : Result ℕ} → Ensures IsMask r → Ensures GivesMask (as_mask r)
as_mask-GivesMask (returned n h) = returned (some n) h
as_mask-GivesMask (raised e) = raised registration_error

coerce-GivesMask : (v : Value) → Ensures GivesMask (coerce v)
unfolding coerce
coerce-GivesMask null = returned none tt
coerce-GivesMask (boolean b) = raised registration_error
coerce-GivesMask (number n) = as_mask-GivesMask (mask_of_number-IsMask n)
coerce-GivesMask (string s) = as_mask-GivesMask (mask_of_token-IsMask (upper (strip s)))
coerce-GivesMask (array vs) = raised registration_error
coerce-GivesMask (object fs) = raised registration_error

given : {v : Option ℕ} {r : Result (Option ℕ)} → r ≡ ok v → Ensures GivesMask r → GivesMask v
given e h = Ensures-ok h e

mask_option-GivesMask :
    (keys : List Bytes) (options : Fields) → Ensures GivesMask (mask_option keys options)
unfolding mask_option
mask_option-GivesMask [] options = returned none tt
mask_option-GivesMask (key ∷ keys) options =
    let rest = mask_option-GivesMask keys options in
    after (coerce (get_field key options)) _ (λ resolved e.
      chosen resolved (given e (coerce-GivesMask (get_field key options)))
        (mask_option keys options) rest)
  where
    chosen :
        (resolved : Option ℕ)
        → GivesMask resolved
        → (later : Result (Option ℕ)) → Ensures GivesMask later
        → Ensures GivesMask (elim resolved [ some mask ↦ ok (some mask) | none ↦ later ])
    chosen none h later rest = rest
    chosen (some n) h later rest = returned (some n) h

-- A mask that is resolved from the options, the network and the fallback is one that the contract takes:
-- 1, 2 or 3.
pub resolve_policy_mask-IsMask :
    (options : Fields) (net_default : Value)
    → Ensures IsMask (resolve_policy_mask options net_default)
unfolding resolve_policy_mask
resolve_policy_mask-IsMask options net_default =
    after (mask_option mask_keys options) _
      (λ resolved e. chosen resolved (given e (mask_option-GivesMask mask_keys options)))
  where
    or_first :
        (resolved : Option ℕ)
        → GivesMask resolved
        → Ensures IsMask (elim resolved [ some mask ↦ ok mask | none ↦ ok 1 ])
    or_first none h = returned 1 one-IsMask
    or_first (some n) h = returned n h

    chosen :
        (resolved : Option ℕ)
        → GivesMask resolved
        → Ensures IsMask (elim resolved [
          | some mask ↦ ok mask
          | none ↦ (coerce net_default >>= λ r. elim r [ some mask ↦ ok mask | none ↦ ok 1 ])
        ])
    chosen none h =
        after (coerce net_default) _ (λ r e. or_first r (given e (coerce-GivesMask net_default)))
    chosen (some n) h = returned n h
