-- ===== src/Zk/Verifier/Tests.antt =====
-- A curve of numbers, on which 0 is no point of the second group, a key with one public input, and a proof.
use aca_py_did_kanon.Prelude.{
  ℕ, ◌+◌, ◌*◌, ◌≡◌, refl, true, List, [], ◌∷◌, ◌==◌, if◌then◌else◌, Result, ok, err, other_error,
}
use aca_py_did_kanon.Prelude.Hex.{codes}
use aca_py_did_kanon.Prelude.Text.{ℤ, pos, negsuc}
use aca_py_did_kanon.Zk.Poseidon.{index}
use aca_py_did_kanon.Zk.Verifier.{
  Pairing, VerificationKey, Proof, g1, g2, Verifier, accumulate, vk_x_of, verify,
}

abbrev part : ℤ → ℕ
part (pos n) = n
part (negsuc n) = 0

abbrev paired : ℕ → ℕ → Result ℕ
paired a b = if a == 0 then err other_error else ok (a * b)

abbrev toy : Pairing
toy = record {
  G1 = ℕ;
  G2 = ℕ;
  G12 = ℕ;
  curve_order = 97;
  g1_point = λ x y z. part x;
  g2_point = λ x y z. part x.0;
  add = λ a b. a + b;
  multiply = λ a n. a * n;
  neg = λ a. a;
  pairing = paired;
  mul = λ a b. a + b;
  is_one = λ a. a == 16;
}

abbrev ones : List ℤ
ones = pos 1 ∷ pos 1 ∷ pos 1 ∷ []

abbrev key : VerificationKey
key = record {
  protocol = codes "groth16";
  curve = codes "bn128";
  n_public = 1;
  vk_alpha_1 = ones;
  vk_beta_2 = ones ∷ ones ∷ ones ∷ [];
  vk_gamma_2 = ones ∷ ones ∷ ones ∷ [];
  vk_delta_2 = ones ∷ ones ∷ ones ∷ [];
  ic = ones ∷ (pos 2 ∷ pos 1 ∷ pos 1 ∷ []) ∷ [];
}

abbrev verifier : Verifier toy
verifier = record {
  n_public = 1;
  alpha_1 = 1;
  beta_2 = 1;
  gamma_2 = 1;
  delta_2 = 1;
  ic = 1 ∷ 2 ∷ [];
}

abbrev proof : Proof
proof = record { pi_a = ones; pi_b = ones ∷ ones ∷ ones ∷ []; pi_c = ones }

accepts : verify toy verifier proof (pos 6 ∷ []) ≡ ok true
unfolding verify vk_x_of accumulate g1 g2 index
accepts = refl

-- A proof whose second point is off its curve.
abbrev off_curve : Proof
off_curve = record proof { pi_b = (pos 0 ∷ pos 1 ∷ []) ∷ ones ∷ ones ∷ [] }

off_curve_raises : verify toy verifier off_curve (pos 6 ∷ []) ≡ err other_error
unfolding verify vk_x_of accumulate g1 g2 index
off_curve_raises = refl
