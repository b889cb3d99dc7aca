-- ===== src/Zk/Verifier/Total.antt =====
-- A verifier that was made decides by the pairing equation.
use aca_py_did_kanon.Prelude.{ℕ, Bool, List, [], ◌∷◌, Result, ◌>>=◌, ok}
use aca_py_did_kanon.Zk.Verifier.{Pairing, Verifier}

module _ (e : Pairing) where
  open e use {G1, G2, G12, curve_order, add, multiply, neg, pairing, mul, is_one}

  -- Each point by its signal.
  abbrev pub weighted : List G1 → List ℕ → List G1
  weighted [] signals = []
  weighted (p ∷ points) [] = []
  weighted (p ∷ points) (s ∷ signals) = multiply p s ∷ weighted points signals

  -- The product of pairings, or the first exception of a pairing.
  abbrev pub product : G12 → List (G2 × G1) → Result G12
  product acc [] = ok acc
  product acc ((q, p) ∷ pairs) = do g ← pairing q p; product (mul acc g) pairs

  -- The verification equation of Groth16 for the public input that the signals give.
  abbrev pub equation : Verifier e → G1 → G2 → G1 → G1 → Result Bool
  equation v a b c vk_x = do
    first ← pairing b (neg a)
    all ← product first ((v.beta_2, v.alpha_1) ∷ (v.gamma_2, vk_x) ∷ (v.delta_2, c) ∷ [])
    ok (is_one all)
