-- ===== src/Zk/Poseidon.antt =====
-- zk/poseidon.py: the Poseidon hash. The tables of `poseidon_constants.json` are an argument.
pub mod Range
pub mod Toy
mod Tests
use aca_py_did_kanon.Prelude.{
  ℕ, zero, suc, ◌+◌, ◌*◌, ◌%◌, ◌-◌, Bool, true, false, ◌||◌, List, [], ◌∷◌, map, ltb, leb, ◌==◌,
  if◌then◌else◌, length, get_elem?, get_or, drop, Option, none, some, Result, ok, err, ◌>>=◌, ◌>>◌,
  raise_if, value_error, index_error,
}

abbrev pub bn254_prime : ℕ
bn254_prime = 21888242871839275222246405745257275088548364400416034343698204186575808495617

abbrev pub n_rounds_f : ℕ
n_rounds_f = 8

abbrev pub n_rounds_p : List ℕ
n_rounds_p = 56 ∷ 57 ∷ 56 ∷ 60 ∷ 60 ∷ 63 ∷ 64 ∷ 63 ∷ 60 ∷ 66 ∷ 60 ∷ 65 ∷ 70 ∷ 60 ∷ 64 ∷ 68 ∷ []

-- The pair `(C, M)` that `_constants` loads.
pub record Constants : Type 0 where
  pub round_constants : List (List ℕ)
  pub mds : List (List (List ℕ))

-- Indexing that raises IndexError.
unfoldable pub index {ℓ} : {A : Type ℓ} → List A → ℕ → Result A
index xs i = elim (get_elem? xs i) [ none ↦ err index_error | some x ↦ ok x ]

unfoldable pub pow5 : ℕ → ℕ
pow5 x = let x2 = x * x % bn254_prime in let x4 = x2 * x2 % bn254_prime in x4 * x % bn254_prime

-- The round constants `Ct[base]`, `Ct[base + 1]`, … are the list from `base` on.
unfoldable pub add_constants : List ℕ → List ℕ → Result (List ℕ)
add_constants [] cs = ok []
add_constants (s ∷ state) [] = err index_error
add_constants (s ∷ state) (c ∷ cs) = do
  rest ← add_constants state cs
  ok ((s + c) % bn254_prime ∷ rest)

-- The S-box: on every element in a full round, on the first in a partial one.
unfoldable pub s_box : Bool → List ℕ → List ℕ
s_box true state = map pow5 state
s_box false [] = []
s_box false (s ∷ state) = pow5 s ∷ state

-- The inner loop over `j`.
unfoldable pub dot : List ℕ → List ℕ → ℕ → Result ℕ
dot row [] acc = ok acc
dot [] (s ∷ state) acc = err index_error
dot (m ∷ row) (s ∷ state) acc = dot row state ((acc + m * s) % bn254_prime)

-- The loop over the `t` rows of the MDS matrix.
unfoldable pub mds_multiply : ℕ → List (List ℕ) → List ℕ → Result (List ℕ)
mds_multiply zero rows state = ok []
mds_multiply (suc t) [] state = err index_error
mds_multiply (suc t) (row ∷ rows) state = do
  a ← dot row state 0
  rest ← mds_multiply t rows state
  ok (a ∷ rest)

-- A round is full if `r < n_rf // 2 or r >= n_rf // 2 + n_rp`.
unfoldable pub is_full : ℕ → ℕ → Bool
is_full n_rp r = ltb r 4 || leb (4 + n_rp) r

unfoldable pub round : ℕ → ℕ → List ℕ → List (List ℕ) → ℕ → List ℕ → Result (List ℕ)
round t n_rp ct mt r state = do
  added ← add_constants state (drop (r * t) ct)
  mds_multiply t mt (s_box (is_full n_rp r) added)

-- `n` rounds from round `r` on.
unfoldable pub rounds : ℕ → ℕ → List ℕ → List (List ℕ) → ℕ → ℕ → List ℕ → Result (List ℕ)
rounds t n_rp ct mt zero r state = ok state
rounds t n_rp ct mt (suc n) r state = do
  next ← round t n_rp ct mt r state
  rounds t n_rp ct mt n (suc r) next

-- `poseidon_hash(inputs)`, with the capacity element 0.
unfoldable pub poseidon_hash : Constants → List ℕ → Result ℕ
poseidon_hash k inputs =
    let n = length inputs in
    let t = suc n in
    do
      raise_if (n == 0) value_error
      raise_if (ltb 16 n) value_error
      n_rp ← index n_rounds_p (n - 1)
      ct ← index k.round_constants (n - 1)
      mt ← index k.mds (n - 1)
      state ← rounds t n_rp ct mt (n_rounds_f + n_rp) 0 (0 ∷ map (λ a. a % bn254_prime) inputs)
      index state 0
