-- ===== src/Prelude/Congruence.antt =====
-- Numbers modulo `p`: sums, products and differences of congruent numbers.
use Prim.Native.Nat.{ℕ, ◌+◌, ◌-◌, ◌*◌, ◌/◌, ◌%◌, ◌<◌}
use mathlib.Core.Path.{◌≡◌, refl, sym, ap, ap₂, ◌∙◌}
use native.Mathlib.Nat.{mod-mod, add-mod, mod-add-div', add-mul-mod_self_right, mod-lt}
use native.Mathlib.Omega.{arith}

pub record Cong (p a b : ℕ) : Type 0 where
  pub same : a % p ≡ b % p

mul_comm : (a b : ℕ) → a * b ≡ b * a
mul_comm a b = omega arith

module _ {p : ℕ} where
  -- Numbers that differ by multiples of `p`.
  pub Cong-mk : (a b k l : ℕ) → a + k * p ≡ b + l * p → Cong p a b
  Cong-mk a b k l e = record {
    same = sym (add-mul-mod_self_right a k p) ∙ (ap (λ n. n % p) e ∙ add-mul-mod_self_right b l p);
  }

  pub Cong-eq : {a b : ℕ} → a ≡ b → Cong p a b
  Cong-eq e = record { same = ap (λ n. n % p) e }

  pub Cong-sym : {a b : ℕ} → Cong p a b → Cong p b a
  Cong-sym h = record { same = sym h.same }

  pub Cong-trans : {a b c : ℕ} → Cong p a b → Cong p b c → Cong p a c
  Cong-trans h k = record { same = h.same ∙ k.same }

  pub Cong-mod : (a : ℕ) → Cong p (a % p) a
  Cong-mod a = record { same = mod-mod a p }

  pub Cong-add : {a a' b b' : ℕ} → Cong p a a' → Cong p b b' → Cong p (a + b) (a' + b')
  Cong-add {a} {a'} {b} {b'} h k = record {
    same = add-mod a b p ∙ (ap₂ (λ x y. (x + y) % p) h.same k.same ∙ sym (add-mod a' b' p));
  }

  mul-mod_left : (a b : ℕ) → Cong p (a % p * b) (a * b)
  mul-mod_left a b =
      Cong-mk (a % p * b) (a * b) (a / p * b) 0 (omega (arith, ap (λ n. n * b) (mod-add-div' a p)))

  mul_left : {a a' : ℕ} (b : ℕ) → Cong p a a' → Cong p (a * b) (a' * b)
  mul_left {a} {a'} b h =
      Cong-trans (Cong-sym (mul-mod_left a b))
        (Cong-trans (Cong-eq (ap (λ n. n * b) h.same)) (mul-mod_left a' b))

  pub Cong-mul : {a a' b b' : ℕ} → Cong p a a' → Cong p b b' → Cong p (a * b) (a' * b')
  Cong-mul {a} {a'} {b} {b'} h k =
      Cong-trans (mul_left b h) (
        Cong-trans (Cong-eq (mul_comm a' b))
          (Cong-trans (mul_left a' k) (Cong-eq (mul_comm b' a'))))

  -- `p - x % p` stands for -x.
  pub Cong-neg : (x : ℕ) → 0 < p → Cong p (p - x % p + x) 0
  Cong-neg x h =
      Cong-mk (p - x % p + x) 0 0 (x / p + 1) (omega (arith, mod-add-div' x p, mod-lt x h))

  -- What is added to both sides may be left out.
  pub Cong-cancel : {a b : ℕ} (c : ℕ) → 0 < p → Cong p (a + c) (b + c) → Cong p a b
  Cong-cancel {a} {b} c h k =
      let zero_sum : Cong p (c + (p - c % p)) 0 =
        Cong-trans (Cong-eq (omega arith)) (Cong-neg c h) in
      Cong-trans (Cong-sym (padded a zero_sum))
        (Cong-trans (Cong-add k (Cong-eq refl)) (padded b zero_sum))
    where
      padded : (n : ℕ) → Cong p (c + (p - c % p)) 0 → Cong p (n + c + (p - c % p)) n
      padded n z =
          Cong-trans (Cong-eq (omega arith))
            (Cong-trans (Cong-add (Cong-eq {a = n} refl) z) (Cong-eq (omega arith)))
