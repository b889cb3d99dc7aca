-- ===== src/Zk/BabyJubjub/Formula.antt =====
-- The sum of points is that of the textbook formula for twisted Edwards curves, whatever the curve.
use native.Mathlib.Nat.{mod-lt, mod-eq_of_lt, add-mod_right, zero-mod}
use mathlib.Core.Path.{ap₂, fun_ext}
use aca_py_did_kanon.Prelude.{
  ℕ, zero, suc, ◌+◌, ◌-◌, ◌*◌, ◌%◌, ◌<◌, ◌≡◌, refl, sym, ap, ◌∙◌, arith, Result, ok, ◌>>=◌,
  >>=-eq-ok, ok_inj, subst,
}
use aca_py_did_kanon.Prelude.Congruence.{
  Cong, Cong-eq, Cong-sym, Cong-trans, Cong-mod, Cong-add, Cong-mul, Cong-neg, Cong-cancel,
}
use aca_py_did_kanon.Zk.BabyJubjub.{Point, Curve, modinv, inverse_loop, add}

-- x₃ = (x₁y₂ + x₂y₁) / (1 + d·x₁x₂y₁y₂) and y₃ = (y₁y₂ − a·x₁x₂) / (1 − d·x₁x₂y₁y₂).
unfoldable pub textbook_sum : Curve → Point → Point → Result Point
textbook_sum c p q =
    let (x1, y1) = p in
    let (x2, y2) = q in
    let t = c.d * (x1 * x2 * y1 * y2) % c.p in
    do
      inv_pos ← modinv ((1 + t) % c.p) c.p
      inv_neg ← modinv ((1 + (c.p - t)) % c.p) c.p
      ok (
        (x1 * y2 + x2 * y1) % c.p * inv_pos % c.p,
        (y1 * y2 + (c.p - c.a * (x1 * x2) % c.p)) % c.p * inv_neg % c.p,
      )

-- The product `dtau`.
dtau_lem :
    (p d x1 y1 x2 y2 : ℕ) → d * (x1 * y2 % p * (y1 * x2 % p) % p) % p ≡ d * (x1 * x2 * y1 * y2) % p
dtau_lem p d x1 y1 x2 y2 =
    (Cong-trans
      (Cong-mul (Cong-eq {a = d} refl) (
        Cong-trans (Cong-mod (x1 * y2 % p * (y1 * x2 % p)))
          (Cong-mul (Cong-mod {p = p} (x1 * y2)) (Cong-mod (y1 * x2)))))
      (Cong-eq (omega arith))).same

-- The numerator of the first coordinate.
numerator_x :
    (p x1 y1 x2 y2 inv : ℕ)
    → (x1 * y2 % p + y1 * x2 % p) * inv % p ≡ (x1 * y2 + x2 * y1) % p * inv % p
numerator_x p x1 y1 x2 y2 inv =
    (Cong-mul
      (Cong-trans (Cong-add (Cong-mod {p = p} (x1 * y2)) (Cong-mod (y1 * x2)))
        (Cong-trans (Cong-eq (omega arith)) (Cong-sym (Cong-mod (x1 * y2 + x2 * y1)))))
      (Cong-eq {a = inv} refl)).same

-- The numerator of the second: both sides are completed to one sum without differences.
numerator_y :
    (p a x1 y1 x2 y2 : ℕ)
    → 0 < p
    → Cong p
        ((y1 + (p - a * x1 % p)) % p * ((x2 + y2) % p) % p + a * (x1 * y2 % p) + (p - y1 * x2 % p))
        (y1 * y2 + (p - a * (x1 * x2) % p))
numerator_y p a x1 y1 x2 y2 h = Cong-cancel (a * x1 * (x2 + y2) + y1 * x2) h (
    Cong-trans (Cong-add (Cong-add (Cong-add delta beta) (Cong-eq refl)) (Cong-eq refl))
      (Cong-trans (Cong-eq regroup) (Cong-trans left (Cong-sym right))))
  where
    delta :
        Cong p
          ((y1 + (p - a * x1 % p)) % p * ((x2 + y2) % p) % p)
          ((y1 + (p - a * x1 % p)) * (x2 + y2))
    delta =
        Cong-trans (Cong-mod ((y1 + (p - a * x1 % p)) % p * ((x2 + y2) % p)))
          (Cong-mul (Cong-mod (y1 + (p - a * x1 % p))) (Cong-mod (x2 + y2)))

    beta : Cong p (a * (x1 * y2 % p)) (a * (x1 * y2))
    beta = Cong-mul (Cong-eq {a = a} refl) (Cong-mod (x1 * y2))

    regroup :
        (y1 + (p - a * x1 % p)) * (x2 + y2)
          + a * (x1 * y2)
          + (p - y1 * x2 % p)
          + (a * x1 * (x2 + y2) + y1 * x2)
        ≡ y1 * (x2 + y2)
          + a * (x1 * y2)
          + (p - a * x1 % p + a * x1) * (x2 + y2)
          + (p - y1 * x2 % p + y1 * x2)
    regroup = omega arith

    left :
        Cong p
          (y1 * (x2 + y2)
            + a * (x1 * y2)
            + (p - a * x1 % p + a * x1) * (x2 + y2)
            + (p - y1 * x2 % p + y1 * x2))
          (y1 * (x2 + y2) + a * (x1 * y2))
    left =
        Cong-trans
          (Cong-add
            (Cong-add (Cong-eq {a = y1 * (x2 + y2) + a * (x1 * y2)} refl)
              (Cong-mul (Cong-neg (a * x1) h) (Cong-eq {a = x2 + y2} refl)))
            (Cong-neg (y1 * x2) h))
          (Cong-eq (omega arith))

    right :
        Cong p
          (y1 * y2 + (p - a * (x1 * x2) % p) + (a * x1 * (x2 + y2) + y1 * x2))
          (y1 * (x2 + y2) + a * (x1 * y2))
    right =
        Cong-trans
          (Cong-eq
            {b = y1 * y2 + (a * (x1 * y2) + y1 * x2) + (p - a * (x1 * x2) % p + a * (x1 * x2))}
            (omega arith))
          (Cong-trans (Cong-add (Cong-eq refl) (Cong-neg (a * (x1 * x2)) h))
            (Cong-eq (omega arith)))

-- Both sums from their parts: the product, the first coordinate for an inverse, the second numerator.
abbrev quotients : ℕ → ℕ → (ℕ → ℕ) → ℕ → Result Point
quotients p t x y = do
  inv_pos ← modinv ((1 + t) % p) p
  inv_neg ← modinv ((1 + (p - t)) % p) p
  ok (x inv_pos, y * inv_neg % p)

-- On every pair of points, on the curve or not, the code's sum is the textbook's: it returns the same
-- point, or both raise because a denominator has no inverse.
pub add-eq-textbook_sum : (c : Curve) (p q : Point) → 0 < c.p → add c p q ≡ textbook_sum c p q
unfolding add textbook_sum
add-eq-textbook_sum c (x1, y1) (x2, y2) h =
    let t = c.d * (x1 * y2 % c.p * (y1 * x2 % c.p) % c.p) % c.p in
    let t' = c.d * (x1 * x2 * y1 * y2) % c.p in
    let x = λ (i : ℕ). (x1 * y2 % c.p + y1 * x2 % c.p) * i % c.p in
    let x' = λ (i : ℕ). (x1 * y2 + x2 * y1) % c.p * i % c.p in
    let y =
      ((y1 + (c.p - c.a * x1 % c.p)) % c.p * ((x2 + y2) % c.p) % c.p
        + c.a * (x1 * y2 % c.p)
        + (c.p - y1 * x2 % c.p))
      % c.p in
    ap (λ u. quotients c.p u x y) (dtau_lem c.p c.d x1 y1 x2 y2)
    ∙ (ap (λ f. quotients c.p t' f y) (fun_ext (λ i. numerator_x c.p x1 y1 x2 y2 i))
        ∙ ap (quotients c.p t' x') (numerator_y c.p c.a x1 y1 x2 y2 h).same)

-- The sum does not depend on the order of the points.
pub add_comm : (c : Curve) (p q : Point) → 0 < c.p → add c p q ≡ add c q p
unfolding textbook_sum
add_comm c (x1, y1) (x2, y2) h =
    add-eq-textbook_sum c (x1, y1) (x2, y2) h
    ∙ (ap
          (λ n.
            quotients c.p (c.d * n % c.p) (λ i. (x1 * y2 + x2 * y1) % c.p * i % c.p)
              ((y1 * y2 + (c.p - c.a * (x1 * x2) % c.p)) % c.p))
          product
        ∙ (ap
              (λ n.
                quotients c.p (c.d * (x2 * x1 * y2 * y1) % c.p) (λ i. n % c.p * i % c.p)
                  ((y1 * y2 + (c.p - c.a * (x1 * x2) % c.p)) % c.p))
              cross
            ∙ (ap₂
                  (λ m n.
                    quotients c.p (c.d * (x2 * x1 * y2 * y1) % c.p)
                      (λ i. (x2 * y1 + x1 * y2) % c.p * i % c.p)
                      ((m + (c.p - c.a * n % c.p)) % c.p))
                  (mul_comm y1 y2) (mul_comm x1 x2)
                ∙ sym (add-eq-textbook_sum c (x2, y2) (x1, y1) h))))
  where
    product : x1 * x2 * y1 * y2 ≡ x2 * x1 * y2 * y1
    product = omega arith

    cross : x1 * y2 + x2 * y1 ≡ x2 * y1 + x1 * y2
    cross = omega arith

    mul_comm : (m n : ℕ) → m * n ≡ n * m
    mul_comm m n = omega arith

-- A point in the range of the field.
abbrev pub IsReduced : Curve → Point → Type 0
IsReduced c q = (q.0 < c.p) × (q.1 < c.p)

pub add-IsReduced : (c : Curve) (p q r : Point) → 0 < c.p → add c p q ≡ ok r → IsReduced c r
unfolding add
add-IsReduced c (x1, y1) (x2, y2) r h e =
    let (i, e1, h1) = >>=-eq-ok (modinv _ c.p) _ e in
    let (j, e2, h2) = >>=-eq-ok (modinv _ c.p) _ h1 in
    subst (IsReduced c) (ok_inj h2) (mod-lt _ h, mod-lt _ h)

-- The inverse of one is one.
modinv-one : (m : ℕ) → 1 < m → modinv 1 m ≡ ok 1
unfolding modinv inverse_loop
modinv-one zero h = absurd (omega arith)
modinv-one (suc m) h =
    let one : 1 % suc m ≡ 1 = mod-eq_of_lt h in
    let last : suc m % 1 ≡ 0 = omega arith in rw (one, inverse_loop) (rw last refl)

-- The neutral point leaves every reduced point as it is.
pub add-neutral : (c : Curve) (q : Point) → 1 < c.p → IsReduced c q → add c q (0, 1) ≡ ok q
unfolding textbook_sum
add-neutral c (x, y) h (hx, hy) =
    add-eq-textbook_sum c (x, y) (0, 1) (omega arith)
    ∙ (ap
          (λ t.
            quotients c.p t (λ i. (x * 1 + 0 * y) % c.p * i % c.p)
              ((y * 1 + (c.p - c.a * (x * 0) % c.p)) % c.p))
          no_product
        ∙ (ap
              (λ i. i >>= λ inv_pos. modinv ((1 + (c.p - 0)) % c.p) c.p >>= λ inv_neg. ok (
                (x * 1 + 0 * y) % c.p * inv_pos % c.p,
                (y * 1 + (c.p - c.a * (x * 0) % c.p)) % c.p * inv_neg % c.p,
              ))
              plus
            ∙ (ap
                  (λ i. i >>= λ inv_neg. ok (
                    (x * 1 + 0 * y) % c.p * 1 % c.p,
                    (y * 1 + (c.p - c.a * (x * 0) % c.p)) % c.p * inv_neg % c.p,
                  ))
                  minus
                ∙ ap₂ (λ m n. ok (m, n)) first second)))
  where
    no_product : c.d * (x * 0 * y * 1) % c.p ≡ 0
    no_product = ap (λ n. n % c.p) {x = c.d * (x * 0 * y * 1)} {y = 0} (omega arith) ∙ zero-mod c.p

    plus : modinv ((1 + 0) % c.p) c.p ≡ ok 1
    plus = ap (λ n. modinv n c.p) (mod-eq_of_lt h) ∙ modinv-one c.p h

    minus : modinv ((1 + (c.p - 0)) % c.p) c.p ≡ ok 1
    minus =
        ap (λ n. modinv n c.p)
          (ap (λ n. n % c.p) {x = 1 + (c.p - 0)} {y = 1 + c.p} (omega arith)
            ∙ (add-mod_right 1 c.p ∙ mod-eq_of_lt h))
        ∙ modinv-one c.p h

    first : (x * 1 + 0 * y) % c.p * 1 % c.p ≡ x
    first =
        ap (λ n. n % c.p * 1 % c.p) {x = x * 1 + 0 * y} {y = x} (omega arith)
        ∙ (ap (λ n. n * 1 % c.p) (mod-eq_of_lt hx)
            ∙ (ap (λ n. n % c.p) {x = x * 1} {y = x} (omega arith) ∙ mod-eq_of_lt hx))

    zero_term : c.a * (x * 0) % c.p ≡ 0
    zero_term = ap (λ n. n % c.p) {x = c.a * (x * 0)} {y = 0} (omega arith) ∙ zero-mod c.p

    second : (y * 1 + (c.p - c.a * (x * 0) % c.p)) % c.p * 1 % c.p ≡ y
    second =
        ap (λ n. (y * 1 + (c.p - n)) % c.p * 1 % c.p) zero_term
        ∙ (ap (λ n. n % c.p * 1 % c.p) {x = y * 1 + (c.p - 0)} {y = y + c.p} (omega arith)
            ∙ (ap (λ n. n * 1 % c.p) (add-mod_right y c.p ∙ mod-eq_of_lt hy)
                ∙ (ap (λ n. n % c.p) {x = y * 1} {y = y} (omega arith) ∙ mod-eq_of_lt hy)))
