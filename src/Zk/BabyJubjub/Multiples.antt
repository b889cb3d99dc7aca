-- ===== src/Zk/BabyJubjub/Multiples.antt =====
-- Double-and-add computes the multiples of a point, in every set of points on which the sum is that of
-- a group.
use aca_py_did_kanon.Prelude.{
  ℕ, zero, suc, ◌+◌, ◌*◌, ◌/◌, ◌%◌, ◌≤◌, ◌<◌, ◌≡◌, refl, sym, ap, ◌∙◌, subst, inl, inr, Bool, true,
  false, Bool-cases, arith, ◌==◌, if◌then◌else◌, ok, ok_or,
}
use aca_py_did_kanon.Zk.BabyJubjub.{Point, Curve, add, mul_loop, mul, in_curve}
use aca_py_did_kanon.Zk.BabyJubjub.Formula.{IsReduced, add_comm, add-neutral}

-- A set of points with the neutral one and the base point, in which sums exist and are associative, and
-- in which the base point has an order that divides the subgroup order. Neutrality and commutativity
-- are theorems.
pub record IsSubgroup (c : Curve) (In : Point → Type 0) : Type 0 where
  pub large : 1 < c.p
  pub reduced : (q : Point) → In q → IsReduced c q
  pub on_curve : (q : Point) → In q → in_curve c q ≡ true
  pub identity : In (0, 1)
  pub base : In c.base8
  pub closed : (p q : Point) → In p → In q → (r : Point) × (add c p q ≡ ok r) × In r
  pub assoc :
      (p q r pq qr : Point)
      → In p
      → In q
      → In r
      → add c p q ≡ ok pq
      → add c q r ≡ ok qr
      → add c pq r ≡ add c p qr

module _ {c : Curve} {In : Point → Type 0} (G : IsSubgroup c In) where
  pub plus : Point → Point → Point
  plus p q = ok_or (0, 1) (add c p q)

  pub add-eq-plus : (p q : Point) → In p → In q → add c p q ≡ ok (plus p q)
  unfolding plus
  add-eq-plus p q hp hq =
      let (r, e, _) = G.closed p q hp hq in e ∙ ap (λ s. ok (ok_or (0, 1) s)) (sym e)

  plus-In : (p q : Point) → In p → In q → In (plus p q)
  unfolding plus
  plus-In p q hp hq =
      let (r, e, hr) = G.closed p q hp hq in subst (λ s. In (ok_or (0, 1) s)) (sym e) hr

  plus_assoc : (p q r : Point) → In p → In q → In r → plus (plus p q) r ≡ plus p (plus q r)
  unfolding plus
  plus_assoc p q r hp hq hr =
      ap (ok_or (0, 1)) (
        G.assoc p q r (plus p q) (plus q r) hp hq hr (add-eq-plus p q hp hq)
          (add-eq-plus q r hq hr))

  plus_comm : (p q : Point) → plus p q ≡ plus q p
  unfolding plus
  plus_comm p q = ap (ok_or (0, 1)) (add_comm c p q (below G.large))
    where
      below : {n : ℕ} → 1 < n → 0 < n
      below h = omega arith

  pub plus-zero : (p : Point) → In p → plus p (0, 1) ≡ p
  unfolding plus
  plus-zero p hp = ap (ok_or (0, 1)) (add-neutral c p G.large (G.reduced p hp))

  -- The `k`-fold sum.
  pub times : ℕ → Point → Point
  unfolding plus
  times zero p = (0, 1)
  times (suc k) p = plus p (times k p)

  pub times-In : (k : ℕ) (p : Point) → In p → In (times k p)
  unfolding times
  times-In zero p hp = G.identity
  times-In (suc k) p hp = plus-In p (times k p) hp (times-In k p hp)

  pub times-add : (m n : ℕ) (p : Point) → In p → times (m + n) p ≡ plus (times m p) (times n p)
  unfolding times
  times-add zero n p hp =
      ap (λ k. times k p) {x = 0 + n} {y = n} (omega arith)
      ∙ (sym (plus-zero (times n p) (times-In n p hp)) ∙ plus_comm (times n p) (0, 1))
  times-add (suc m) n p hp =
      ap (λ k. times k p) {x = suc m + n} {y = suc (m + n)} (omega arith)
      ∙ (ap (plus p) (times-add m n p hp)
          ∙ sym (plus_assoc p (times m p) (times n p) hp (times-In m p hp) (times-In n p hp)))

  -- The double of a point, `k` times.
  times-double : (k : ℕ) (p : Point) → In p → times k (plus p p) ≡ times (k + k) p
  unfolding times
  times-double zero p hp = refl
  times-double (suc k) p hp =
      ap (plus (plus p p)) (times-double k p hp)
      ∙ (plus_assoc p p (times (k + k) p) hp hp (times-In (k + k) p hp)
          ∙ ap (λ n. times n p) {x = suc (suc (k + k))} {y = suc k + suc k} (omega arith))

  -- The multiples of a multiple.
  pub times-mul : (m n : ℕ) (p : Point) → In p → times (m * n) p ≡ times m (times n p)
  unfolding times
  times-mul zero n p hp = ap (λ k. times k p) {x = 0 * n} {y = 0} (omega arith)
  times-mul (suc m) n p hp =
      ap (λ k. times k p) {x = suc m * n} {y = n + m * n} (omega arith)
      ∙ (times-add n (m * n) p hp ∙ ap (plus (times n p)) (times-mul m n p hp))

  pub times-identity : (n : ℕ) → times n (0, 1) ≡ (0, 1)
  unfolding times
  times-identity zero = refl
  times-identity (suc n) = ap (plus (0, 1)) (times-identity n) ∙ plus-zero (0, 1) G.identity

  -- One round: the lowest bit of the scalar.
  round_sum :
      (k : ℕ) (res exp : Point)
      → In res
      → In exp
      → plus (if k % 2 == 1 then plus res exp else res) (times (k / 2) (plus exp exp))
        ≡ plus res (times k exp)
  unfolding times
  round_sum k res exp hr he =
      ap (plus (if k % 2 == 1 then plus res exp else res)) (times-double (k / 2) exp he)
      ∙ elim (Bool-cases (k % 2 == 1)) [
        | inl odd ↦ rw odd (
            plus_assoc res exp (times (k / 2 + k / 2) exp) hr he (times-In (k / 2 + k / 2) exp he)
            ∙ ap (λ n. plus res (times n exp)) {x = suc (k / 2 + k / 2)} {y = k} (ground arith))
        | inr even ↦
            rw even (ap (λ n. plus res (times n exp)) {x = k / 2 + k / 2} {y = k} (ground arith))
      ]

  mul_loop_lem :
      (fuel k : ℕ) (res exp : Point)
      → k ≤ fuel
      → In res
      → In exp
      → mul_loop c fuel k res exp ≡ ok (plus res (times k exp))
  unfolding mul_loop times
  mul_loop_lem zero k res exp h hr he =
      ap ok
        (sym (plus-zero res hr) ∙ ap (λ n. plus res (times n exp)) {x = 0} {y = k} (omega arith))
  mul_loop_lem (suc fuel) k res exp h hr he = elim (Bool-cases (k == 0)) [
    | inl done ↦
        rw (done, mul_loop)
          (ap ok (
            sym (plus-zero res hr)
            ∙ ap (λ n. plus res (times n exp)) {x = 0} {y = k} (ground arith)))
    | inr more ↦
        rw (more, mul_loop)
          (rw (added (k % 2 == 1), add-eq-plus exp exp he he)
            (mul_loop_lem fuel (k / 2) (if k % 2 == 1 then plus res exp else res) (plus exp exp)
                (ground arith) (added_In (k % 2 == 1)) (plus-In exp exp he he)
              ∙ ap ok (round_sum k res exp hr he)))
  ]
    where
      added :
          (b : Bool) → (if b then add c res exp else ok res) ≡ ok (if b then plus res exp else res)
      added true = add-eq-plus res exp hr he
      added false = refl

      added_In : (b : Bool) → In (if b then plus res exp else res)
      added_In true = plus-In res exp hr he
      added_In false = hr

  -- The product of a scalar and a point of the set exists and is the sum of as many copies of the point.
  pub mul-eq-times : (k : ℕ) (p : Point) → In p → mul c p k ≡ ok (times k p)
  unfolding mul
  mul-eq-times k p hp =
      mul_loop_lem k k (0, 1) p (omega arith) G.identity hp
      ∙ ap ok (plus_comm (0, 1) (times k p) ∙ plus-zero (times k p) (times-In k p hp))
