-- ===== src/Prelude/Exceptions.antt =====
-- Python's exceptions as values: the exception's class without its message.
use mathlib.Core.Path.{◌≡◌, refl, subst}
use mathlib.Core.Logic.{◌⊎◌, inl, inr}
use mathlib.Core.Bool.{Bool, true, false}

-- The classes that the modelled code raises or that its callees raise.
pub data Error : Type 0 where
  value_error type_error index_error key_error overflow_error : Error
  zk_issuer_error issuer_key_error config_error : Error
  client_error status_error merkle_error verify_error witness_error prover_error : Error
  contract_logic already_initialized web3_error os_error storage_error storage_not_found
        other_error :
      Error
  registries_error resolver_error did_not_found wallet_error wallet_duplicate attribute_error
        not_implemented registration_error resolution_error object_not_found :
      Error

-- What a call gives: a value, or the exception it raised.
pub data Result {ℓ} (T : Type ℓ) : Type ℓ where
  ok : T → Result T
  err : Error → Result T

-- The value of a call that cannot raise.
abbrev pub ok_or {ℓ} : {T : Type ℓ} → T → Result T → T
ok_or default (ok x) = x
ok_or default (err why) = default

-- `if b: raise e`
abbrev pub raise_if : Bool → Error → Result (Unit {0})
raise_if true why = err why
raise_if false why = ok tt

-- One call after another: an exception of the first goes on.
infixl 5 ◌>>=◌ ◌>>◌
abbrev pub ◌>>=◌ {ℓ κ} : {T : Type ℓ} {U : Type κ} → Result T → (T → Result U) → Result U
ok x >>= next = next x
err why >>= next = err why

abbrev pub ◌>>◌ {ℓ} : {U : Type ℓ} → Result (Unit {0}) → Result U → Result U
first >> next = first >>= λ _. next

-- A chain that gives a value has one at each call.
pub >>=-eq-ok {ℓ κ} :
    {T : Type ℓ} {U : Type κ} (first : Result T) (next : T → Result U) {u : U}
    → (first >>= next) ≡ ok u
    → (x : T) × (first ≡ ok x) × (next x ≡ ok u)
>>=-eq-ok (ok x) next h = (x, refl, h)
>>=-eq-ok (err why) next h = cc

-- To split on a call and keep the equation.
pub Result-cases {ℓ} :
    {T : Type ℓ} (r : Result T) → ((x : T) × (r ≡ ok x)) ⊎ ((why : Error) × (r ≡ err why))
Result-cases (ok x) = inl (x, refl)
Result-cases (err why) = inr (why, refl)

pub ok_inj {ℓ} : {T : Type ℓ} {x y : T} → ok x ≡ ok y → x ≡ y
ok_inj h = cc

pub err_inj {ℓ} : {T : Type ℓ} {e d : Error} → ◌≡◌ {A = Result T} (err e) (err d) → e ≡ d
err_inj h = cc

pub err_ne_ok {ℓ} : {T : Type ℓ} {why : Error} {x : T} → err why ≡ ok x → ⊥
err_ne_ok h = cc

-- A postcondition of a call: it holds of the value, if there is one.
pub data Ensures {ℓ κ} {T : Type ℓ} (P : T → Type κ) : Result T → Type (ℓ ⊔ κ) where
  returned : (x : T) → P x → Ensures P (ok x)
  raised : (why : Error) → Ensures P (err why)

-- After a call, the rest is looked at for the value that it gave.
pub after {ℓ κ ι} :
    {T : Type ℓ} {U : Type κ} {P : U → Type ι} (first : Result T) (next : T → Result U)
    → ((x : T) → first ≡ ok x → Ensures P (next x))
    → Ensures P (first >>= next)
after (ok x) next h = h x refl
after (err why) next h = raised why

pub Ensures-ok {ℓ κ} :
    {T : Type ℓ} {P : T → Type κ} {r : Result T} {x : T} → Ensures P r → r ≡ ok x → P x
Ensures-ok {P} (returned y p) h = subst P (ok_inj h) p
Ensures-ok (raised why) h = absurd (err_ne_ok h)
