-- ===== src/Prelude/Exec.antt =====
-- Methods that change an object and may raise: what was written before a raise stays written.
use mathlib.Core.Path.{◌≡◌, refl, ap}
use aca_py_did_kanon.Prelude.Exceptions.{Error, Result, ok, err, err_ne_ok}

abbrev pub Exec {ℓ} : Type ℓ → Type ℓ → Type ℓ
Exec S A = S → Result A × S

module _ {ℓ} {S A : Type ℓ} where
  abbrev pub pure : A → Exec S A
  pure a s = (ok a, s)

  abbrev pub raise : Error → Exec S A
  raise e s = (err e, s)

  abbrev pub lift : Result A → Exec S A
  lift r s = (r, s)

  abbrev pub gets : (S → A) → Exec S A
  gets f s = (ok (f s), s)

-- What follows a step: the rest runs on the value, or the exception goes on.
abbrev pub continue {ℓ} : {S A B : Type ℓ} → Result A × S → (A → Exec S B) → Result B × S
continue (ok a, s) f = f a s
continue (err e, s) f = (err e, s)

infixl 5 ◌>>=◌ ◌>>◌
abbrev pub ◌>>=◌ {ℓ} : {S A B : Type ℓ} → Exec S A → (A → Exec S B) → Exec S B
◌>>=◌ m f s = continue (m s) f

abbrev pub ◌>>◌ {ℓ} : {S A B : Type ℓ} → Exec S A → Exec S B → Exec S B
m >> n = m >>= λ _. n

abbrev pub modify : {S : Type 0} → (S → S) → Exec S (Unit {0})
modify f s = (ok tt, f s)

-- A step that raised in the first part raises on the whole.
pub bind_err {ℓ} :
    {S A B : Type ℓ} (m : Exec S A) (f : A → Exec S B) (s s' : S) (e : Error)
    → m s ≡ (err e, s')
    → (m >>= f) s ≡ (err e, s')
bind_err m f s s' e h = ap (λ r. continue r f) h

pub bind_ok {ℓ} :
    {S A B : Type ℓ} (m : Exec S A) (f : A → Exec S B) (s s' : S) (a : A)
    → m s ≡ (ok a, s')
    → (m >>= f) s ≡ f a s'
bind_ok m f s s' a h = ap (λ r. continue r f) h

-- What ran to a value has run its first part to a value.
pub ran :
    {S A B : Type 0} (m : Exec S A) (s : S) (f : A → Exec S B) {t : S} {x : B}
    → (m >>= f) s ≡ (ok x, t)
    → (a : A) × (s' : S) × (m s ≡ (ok a, s')) × (f a s' ≡ (ok x, t))
ran {S = S} {A = A} {B = B} m s f {t = t} {x = x} h = go (m s) refl h
  where
    go :
        (p : Result A × S)
        → m s ≡ p
        → continue p f ≡ (ok x, t)
        → (a : A) × (s' : S) × (m s ≡ (ok a, s')) × (f a s' ≡ (ok x, t))
    go (ok a, s') e h = (a, s', e, h)
    go (err e', s') e h = absurd (err_ne_ok (ap (λ p. p.0) h))
