-- ===== src/Contracts/Views.antt =====
-- The way in which the registry clients over contracts/_base.py read a view: `_read` turns what web3
-- raises into `RegistryClientError`, and the `except` clause around it asks whether the cause is a
-- revert (`ContractLogicError`).
use aca_py_did_kanon.Prelude.{
  ℕ, zero, suc, ◌≡◌, ◌↔◌, refl, sym, ap, ◌∙◌, ◌⊎◌, inl, inr, Option, none, some, Error, Result, ok,
  err, err_ne_ok, ok_inj, contract_logic, already_initialized, client_error,
}
use aca_py_did_kanon.Contracts.Transaction.{client_failure}

-- A view whose revert has a meaning: the value `fallback`.
unfoldable pub or_on_revert {ℓ} : {A : Type ℓ} → A → Result A → Result A
or_on_revert fallback (ok a) = ok a
or_on_revert fallback (err contract_logic) = ok fallback
or_on_revert fallback (err already_initialized) = ok fallback
or_on_revert fallback (err e) = err (client_failure client_error e)

-- A record with a stamp of its creation: 0 says that it was never registered.
unfoldable pub stamped {ℓ κ} : {A : Type ℓ} {B : Type κ} → ℕ → (A → B) → A → Option B
stamped zero decode raw = none
stamped (suc t) decode raw = some (decode raw)

-- A revert, or any other exception.
abbrev pub IsRevert : Error → Type 0
IsRevert contract_logic = Unit
IsRevert already_initialized = Unit
IsRevert e = ⊥

abbrev pub Reverts {ℓ} : {A : Type ℓ} → Result A → Type 0
Reverts (ok a) = ⊥
Reverts (err e) = IsRevert e

-- A revert gives the fallback, and any other exception is raised as another.
or_on_revert-err {ℓ} :
    {A : Type ℓ} (fallback : A) (e : Error)
    → (IsRevert e × (or_on_revert fallback (err e) ≡ ok fallback))
      ⊎ ((IsRevert e → ⊥) × ((v : A) → or_on_revert fallback (err e) ≡ ok v → ⊥))
unfolding or_on_revert
or_on_revert-err fallback contract_logic = inl (tt, refl)
or_on_revert-err fallback already_initialized = inl (tt, refl)
or_on_revert-err fallback e = inr (λ h. h, λ v h. err_ne_ok h)

-- A read with a fallback gives a value exactly where the view answers it, or reverts and the value is
-- the fallback.
pub or_on_revert_iff {ℓ} :
    {A : Type ℓ} (fallback : A) (view : Result A) (v : A)
    → (or_on_revert fallback view ≡ ok v) ↔ ((view ≡ ok v) ⊎ (Reverts view × (fallback ≡ v)))
unfolding or_on_revert
or_on_revert_iff fallback (ok a) v = (λ h. inl h, λ h. elim h [ inl e ↦ e | inr r ↦ absurd r.0 ])
or_on_revert_iff fallback (err e) v = elim (or_on_revert-err fallback e) [
  | inl (reverts, value) ↦ (
    λ h. inr (reverts, ok_inj (sym value ∙ h)),
    λ h. elim h [ inl answered ↦ absurd (err_ne_ok answered) | inr r ↦ value ∙ ap ok r.1 ],
  )
  | inr (not_revert, no_value) ↦ (
    λ h. absurd (no_value v h),
    λ h. elim h [ inl answered ↦ absurd (err_ne_ok answered) | inr r ↦ absurd (not_revert r.0) ],
  )
]
