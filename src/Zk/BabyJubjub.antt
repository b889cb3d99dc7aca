-- ===== src/Zk/BabyJubjub.antt =====
-- zk/_babyjub.py: points of the twisted Edwards curve a·x² + y² = 1 + d·x²·y². The constants of the
-- module are the record `baby_jubjub`; the functions take such a record, so that they also run on a
-- small curve in the tests.
pub mod Formula
pub mod Multiples
pub mod Toy
pub mod ToyGroup
mod Tests
use aca_py_did_kanon.Prelude.{
  ℕ, zero, suc, ◌+◌, ◌-◌, ◌*◌, ◌/◌, ◌%◌, Bool, true, false, ◌==◌, if◌then◌else◌, Result, ok, err,
  value_error, ◌>>=◌,
}

abbrev pub Point : Type 0
Point = ℕ × ℕ

pub record Curve : Type 0 where
  pub p : ℕ
  pub a : ℕ
  pub d : ℕ
  pub order : ℕ
  pub base8 : Point

-- `P`, `A`, `D`, `ORDER` and `BASE8`
abbrev pub baby_jubjub : Curve
baby_jubjub = record {
  p = 21888242871839275222246405745257275088548364400416034343698204186575808495617;
  a = 168700;
  d = 168696;
  order = 21888242871839275222246405745257275088614511777268538073601725287587578984328;
  base8 = (
    5299619240641551281634865583518297030282874472190772894086521144482721001553,
    16950150798460657717958625567821834550301663161624707787222815936182638968203,
  );
}

-- `ORDER >> 3`
abbrev pub sub_order : Curve → ℕ
sub_order c = c.order / 8

-- Python's `pow(a, -1, m)`, by the extended Euclidean algorithm: `t` goes with the remainder `r`, modulo
-- `m`. The remainders fall, so as many rounds as the modulus are enough.
unfoldable pub inverse_loop : ℕ → ℕ → ℕ → ℕ → ℕ → ℕ → Result ℕ
inverse_loop zero m r0 t0 r1 t1 = err value_error
inverse_loop (suc fuel) m r0 t0 r1 t1 =
    let rest = inverse_loop fuel m r1 t1 (r0 % r1) ((t0 + (m - r0 / r1 * t1 % m)) % m) in
    if r1 == 0 then (if r0 == 1 then ok (t0 % m) else err value_error) else rest

-- `_modinv`
unfoldable pub modinv : ℕ → ℕ → Result ℕ
unfolding inverse_loop
modinv a m = inverse_loop (suc m) m m 0 (a % m) 1

module _ (c : Curve) where
  -- The differences are taken modulo `p`, as Python's `%` does.
  unfoldable pub add : Point → Point → Result Point
  unfolding modinv
  add p q =
      let (x1, y1) = p in
      let (x2, y2) = q in
      let beta = x1 * y2 % c.p in
      let gamma = y1 * x2 % c.p in
      let delta = (y1 + (c.p - c.a * x1 % c.p)) % c.p * ((x2 + y2) % c.p) % c.p in
      let tau = beta * gamma % c.p in
      let dtau = c.d * tau % c.p in
      do
        inv_pos ← modinv ((1 + dtau) % c.p) c.p
        inv_neg ← modinv ((1 + (c.p - dtau)) % c.p) c.p
        ok (
          (beta + gamma) * inv_pos % c.p,
          (delta + c.a * beta + (c.p - gamma)) % c.p * inv_neg % c.p,
        )

  unfoldable pub double : Point → Result Point
  double p = add p p

  -- The loop of `mul`; a round halves `k`, so `k` rounds are enough.
  unfoldable pub mul_loop : ℕ → ℕ → Point → Point → Result Point
  mul_loop zero k res exp = ok res
  mul_loop (suc fuel) k res exp =
      let rest : Result Point = do
        res' ← (if k % 2 == 1 then add res exp else ok res)
        exp' ← add exp exp
        mul_loop fuel (k / 2) res' exp'
      in if k == 0 then ok res else rest

  -- `mul`, whose scalars are never negative here.
  unfoldable pub mul : Point → ℕ → Result Point
  unfolding mul_loop
  mul base k = mul_loop k k (0, 1) base

  unfoldable pub in_curve : Point → Bool
  in_curve p =
      let (x, y) = p in
      let x2 = x * x % c.p in
      let y2 = y * y % c.p in (c.a * x2 + y2) % c.p == (1 + c.d * x2 * y2) % c.p
