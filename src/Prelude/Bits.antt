-- ===== src/Prelude/Bits.antt =====
-- The bit operations that the code applies at variables: `i & 1`, `i ^ 1`, and the bound of `a ^ b`.
use Prim.Native.Nat.{
  ℕ, zero, suc, ◌+◌, ◌-◌, ◌*◌, ◌/◌, ◌%◌, ◌^◌, ◌≤◌, ◌<◌, min, bit_and, bit_xor, digits, bitwise,
  bit_and-bitwise, bit_xor-bitwise, differ,
}
use mathlib.Core.Path.{◌≡◌, refl, sym, ap, subst, ◌∙◌}
use native.Mathlib.Nat.{pow-suc}
use native.Mathlib.Omega.{arith}

-- An operation on digits, where `z` is what is left of the second number when the first has run out.
module _ (z : ℕ → ℕ) (f : ℕ → ℕ → ℕ) where
  digits_done : (fuel b : ℕ) → digits z f fuel 0 b ≡ z b
  digits_done zero b = refl
  digits_done (suc fuel) b = refl

  -- Fuel beyond the first number makes no difference.
  digits_stable :
      (a b fuel more : ℕ) → a ≤ fuel → a ≤ more → digits z f fuel a b ≡ digits z f more a b
  digits_stable zero b fuel more le le' = digits_done fuel b ∙ sym (digits_done more b)
  digits_stable (suc a) b (suc fuel) (suc more) le le' =
      ap (λ (t : ℕ). t * 2 + f (suc a % 2) (b % 2))
        (digits_stable (suc a / 2) (b / 2) fuel more (omega arith) (omega arith))
  digits_stable (suc a) b zero more le le' = elim le [ ]
  digits_stable (suc a) b (suc fuel) zero le le' = elim le' [ ]

  -- The lowest digit apart from the others.
  bitwise_split :
      ((b : ℕ) → z b ≡ z (b / 2) * 2 + f 0 (b % 2))
      → (a b : ℕ) → bitwise z f a b ≡ bitwise z f (a / 2) (b / 2) * 2 + f (a % 2) (b % 2)
  bitwise_split run_out zero b = run_out b
  bitwise_split run_out (suc a) b =
      ap (λ (t : ℕ). t * 2 + f (suc a % 2) (b % 2))
        (digits_stable (suc a / 2) (b / 2) a (suc a / 2) (omega arith) (omega arith))

and_split : (a b : ℕ) → bit_and a b ≡ bit_and (a / 2) (b / 2) * 2 + min (a % 2) (b % 2)
and_split a b =
    let split = bitwise_split (λ x. 0) min (λ x. omega arith) a b in
    bit_and-bitwise a b
    ∙ split
    ∙ ap (λ (t : ℕ). t * 2 + min (a % 2) (b % 2)) (sym (bit_and-bitwise (a / 2) (b / 2)))

xor_split : (a b : ℕ) → bit_xor a b ≡ bit_xor (a / 2) (b / 2) * 2 + differ (a % 2) (b % 2)
xor_split a b =
    let split = bitwise_split (λ x. x) differ (λ x. omega arith) a b in
    bit_xor-bitwise a b
    ∙ split
    ∙ ap (λ (t : ℕ). t * 2 + differ (a % 2) (b % 2)) (sym (bit_xor-bitwise (a / 2) (b / 2)))

-- What the operations leave when the second number has run out, by a bound on the first.
and_nothing : (bound a : ℕ) → a < bound → bit_and a 0 ≡ 0
and_nothing zero a h = elim h [ ]
and_nothing (suc bound) zero h = refl
and_nothing (suc bound) (suc a) h =
    let rest = and_nothing bound (suc a / 2) (omega arith) in omega (arith, and_split (suc a) 0)

differ_small :
    (d e : ℕ) → d < 2 → e < 2 → (differ d 0 ≡ d) × (differ d 1 ≡ 1 - d) × (differ d e < 2)
differ_small zero zero p q = (refl, refl, p)
differ_small zero (suc zero) p q = (refl, refl, q)
differ_small (suc zero) zero p q = (refl, refl, p)
differ_small (suc zero) (suc zero) p q = (refl, refl, omega arith)
differ_small (suc (suc d)) e p q = absurd (omega arith)
differ_small d (suc (suc e)) p q = absurd (omega arith)

xor_nothing : (bound a : ℕ) → a < bound → bit_xor a 0 ≡ a
xor_nothing zero a h = elim h [ ]
xor_nothing (suc bound) zero h = refl
xor_nothing (suc bound) (suc a) h =
    let rest = xor_nothing bound (suc a / 2) (omega arith) in
    let low = (differ_small (suc a % 2) 0 (omega arith) (omega arith)).0 in
    omega (arith, xor_split (suc a) 0)

pub bit_and-one : (a : ℕ) → bit_and a 1 ≡ a % 2
bit_and-one a =
    let rest = and_nothing (suc (a / 2)) (a / 2) (omega arith) in omega (arith, and_split a 1)

-- `i ^ 1` is the other one of a pair of neighbours.
pub bit_xor-one : (a : ℕ) → bit_xor a 1 ≡ a / 2 * 2 + (1 - a % 2)
bit_xor-one a =
    let rest = xor_nothing (suc (a / 2)) (a / 2) (omega arith) in
    let low = (differ_small (a % 2) 0 (omega arith) (omega arith)).1 in omega (arith, xor_split a 1)

-- Exclusive or does not leave the width of its arguments.
pub bit_xor-lt : (width a b : ℕ) → a < 2 ^ width → b < 2 ^ width → bit_xor a b < 2 ^ width
bit_xor-lt zero a b p q =
    let none : a ≡ 0 = omega arith in rw none (subst (λ t. t < 1) (sym (bit_xor-bitwise 0 b)) q)
bit_xor-lt (suc width) a b p q =
    let double = pow-suc 2 width in
    let high = bit_xor-lt width (a / 2) (b / 2) (omega arith) (omega arith) in
    let low = (differ_small (a % 2) (b % 2) (omega arith) (omega arith)).2 in
    omega (arith, xor_split a b)

-- `b & 0xF8`
pub bit_and-0xF8 : (b : ℕ) → bit_and b 0xF8 % 8 ≡ 0
bit_and-0xF8 b = omega (arith, and_split b 248, and_split (b / 2) 124, and_split (b / 2 / 2) 62)
