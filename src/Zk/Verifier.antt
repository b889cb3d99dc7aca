-- ===== src/Zk/Verifier.antt =====
-- zk/groth16_verifier.py, `Groth16OffChainVerifier`. The curve of py_ecc is an argument; a point of a
-- key or a proof is the list of its coordinates, each through `int`.
pub mod Total
mod Tests
use aca_py_did_kanon.Prelude.{
  ℕ, ◌+◌, ◌-◌, ◌%◌, Bool, not, ◌||◌, List, [], ◌∷◌, map, ◌==◌, if◌then◌else◌, length, Bytes,
  bytes_eq, Result, ok, err, verify_error, index_error, ◌>>=◌, ◌>>◌, raise_if,
}
use aca_py_did_kanon.Prelude.Hex.{codes}
use aca_py_did_kanon.Prelude.Text.{ℤ, pos, negsuc}
use aca_py_did_kanon.Zk.Poseidon.{index}

pub record Pairing : Type 1 where
  pub G1 : Type 0
  pub G2 : Type 0
  pub G12 : Type 0
  pub curve_order : ℕ
  -- `(FQ(x), FQ(y), FQ(z))`, and the same over pairs of coordinates.
  pub g1_point : ℤ → ℤ → ℤ → G1
  pub g2_point : ℤ × ℤ → ℤ × ℤ → ℤ × ℤ → G2
  pub add : G1 → G1 → G1
  pub multiply : G1 → ℕ → G1
  pub neg : G1 → G1
  -- Raises for a point off its curve.
  pub pairing : G2 → G1 → Result G12
  pub mul : G12 → G12 → G12
  -- `final_exponentiate(product) == FQ12.one()`
  pub is_one : G12 → Bool

-- The JSON object of a verification key.
pub record VerificationKey : Type 0 where
  pub protocol : Bytes
  pub curve : Bytes
  pub n_public : ℕ
  pub vk_alpha_1 : List ℤ
  pub vk_beta_2 : List (List ℤ)
  pub vk_gamma_2 : List (List ℤ)
  pub vk_delta_2 : List (List ℤ)
  pub ic : List (List ℤ)

pub record Proof : Type 0 where
  pub pi_a : List ℤ
  pub pi_b : List (List ℤ)
  pub pi_c : List ℤ

-- `t in (a, b)`
abbrev pub one_of : Bytes → Bytes → Bytes → Bool
one_of t a b = bytes_eq t a || bytes_eq t b

-- `_to_int(s) % curve_order`
abbrev pub mod_order : ℤ → ℕ → ℕ
mod_order (pos n) order = n % order
mod_order (negsuc n) order = order - 1 - n % order

module _ (e : Pairing) where
  open e use {
    G1, G2, G12, curve_order, g1_point, g2_point, add, multiply, neg, pairing, mul, is_one,
  }

  -- `_g1`
  unfoldable pub g1 : List ℤ → Result G1
  g1 point = do x ← index point 0; y ← index point 1; z ← index point 2; ok (g1_point x y z)

  abbrev pub coordinate : List ℤ → Result (ℤ × ℤ)
  coordinate pair = do a ← index pair 0; b ← index pair 1; ok (a, b)

  -- `_g2`
  unfoldable pub g2 : List (List ℤ) → Result G2
  g2 point = do
    xs ← index point 0
    x ← coordinate xs
    ys ← index point 1
    y ← coordinate ys
    zs ← index point 2
    z ← coordinate zs
    ok (g2_point x y z)

  unfoldable pub g1_all : List (List ℤ) → Result (List G1)
  unfolding g1
  g1_all [] = ok []
  g1_all (p ∷ ps) = do x ← g1 p; xs ← g1_all ps; ok (x ∷ xs)

  pub record Verifier : Type 0 where
    pub n_public : ℕ
    pub alpha_1 : G1
    pub beta_2 : G2
    pub gamma_2 : G2
    pub delta_2 : G2
    pub ic : List G1

  -- The constructor.
  unfoldable pub new : VerificationKey → Result Verifier
  new vk = do
    raise_if (not (one_of vk.protocol (codes "groth16") (codes "Groth16"))) verify_error
    raise_if (not (one_of vk.curve (codes "bn128") (codes "BN254"))) verify_error
    alpha_1 ← g1 vk.vk_alpha_1
    beta_2 ← g2 vk.vk_beta_2
    gamma_2 ← g2 vk.vk_gamma_2
    delta_2 ← g2 vk.vk_delta_2
    ic ← g1_all vk.ic
    raise_if (not (length ic == vk.n_public + 1)) verify_error
    ok (record {
      n_public = vk.n_public;
      alpha_1 = alpha_1;
      beta_2 = beta_2;
      gamma_2 = gamma_2;
      delta_2 = delta_2;
      ic = ic;
    })

  -- The loop over the signals: `ic[i + 1]` and on are the list `points`.
  unfoldable pub accumulate : List G1 → List ℕ → G1 → Result G1
  accumulate points [] vk_x = ok vk_x
  accumulate [] (s ∷ signals) vk_x = err index_error
  accumulate (p ∷ points) (s ∷ signals) vk_x = accumulate points signals (add vk_x (multiply p s))

  unfoldable pub vk_x_of : List G1 → List ℕ → Result G1
  unfolding accumulate
  vk_x_of [] signals = err index_error
  vk_x_of (first ∷ points) signals = accumulate points signals first

  unfoldable pub verify : Verifier → Proof → List ℤ → Result Bool
  unfolding vk_x_of
  verify v proof public_signals = do
    raise_if (not (length public_signals == v.n_public)) verify_error
    pi_a ← g1 proof.pi_a
    pi_b ← g2 proof.pi_b
    pi_c ← g1 proof.pi_c
    vk_x ← vk_x_of v.ic (map (λ s. mod_order s curve_order) public_signals)
    e_ab ← pairing pi_b (neg pi_a)
    e_alpha_beta ← pairing v.beta_2 v.alpha_1
    e_vkx_gamma ← pairing v.gamma_2 vk_x
    e_c_delta ← pairing v.delta_2 pi_c
    ok (is_one (mul (mul (mul e_ab e_alpha_beta) e_vkx_gamma) e_c_delta))
