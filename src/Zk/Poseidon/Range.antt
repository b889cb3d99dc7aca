-- ===== src/Zk/Poseidon/Range.antt =====
-- The hash returns a field element, never fails to index tables of the vendored shape, and reads
-- its inputs modulo the field.
use aca_py_did_kanon.Prelude.{
  ℕ, zero, suc, ◌+◌, ◌*◌, ◌-◌, ◌%◌, ◌≤◌, ◌<◌, ◌≡◌, refl, ap, true, false, List, [], ◌∷◌, map, arith,
  Bool, ltb, ◌==◌, length, length-map, get_or, drop, length-drop, get_elem?-get_or, All, All-get_or,
  ok,
}
use native.Mathlib.Nat.{mod-mod}
use aca_py_did_kanon.Zk.Poseidon.{
  bn254_prime, n_rounds_f, n_rounds_p, Constants, index, pow5, add_constants, s_box, dot,
  mds_multiply, is_full, round, rounds, poseidon_hash,
}

abbrev pub IsFelt : ℕ → Type 0
IsFelt x = x < bn254_prime

-- The tables have what a hash of `n` inputs reads.
pub record FitsArity (k : Constants) (n : ℕ) : Type 0 where
  pub has_constants : n - 1 < length k.round_constants
  pub has_mds : n - 1 < length k.mds
  pub enough_constants :
      (n_rounds_f + get_or n_rounds_p (n - 1) 0) * suc n
      ≤ length (get_or k.round_constants (n - 1) [])
  pub enough_rows : suc n ≤ length (get_or k.mds (n - 1) [])
  pub long_rows : All (λ row. suc n ≤ length row) (get_or k.mds (n - 1) [])

index_total {ℓ} :
    {A : Type ℓ} (xs : List A) (i : ℕ) (d : A) → i < length xs → index xs i ≡ ok (get_or xs i d)
unfolding index
index_total xs i d h = rw (get_elem?-get_or xs i d h, index)

dot_total :
    (row state : List ℕ) (acc : ℕ)
    → length state ≤ length row
    → IsFelt acc
    → (x : ℕ) × (dot row state acc ≡ ok x) × IsFelt x
unfolding dot
dot_total row [] acc h f = (acc, refl, f)
dot_total [] (s ∷ state) acc h f = absurd (omega arith)
dot_total (m ∷ row) (s ∷ state) acc h f =
    dot_total row state ((acc + m * s) % bn254_prime) (omega arith) (omega arith)

add_constants_total :
    (state cs : List ℕ)
    → length state ≤ length cs
    → (out : List ℕ) × (add_constants state cs ≡ ok out) × (length out ≡ length state)
unfolding add_constants
add_constants_total [] cs h = ([], refl, refl)
add_constants_total (s ∷ state) [] h = absurd (omega arith)
add_constants_total (s ∷ state) (c ∷ cs) h =
    let (rest, e, l) = add_constants_total state cs (omega arith) in
    ((s + c) % bn254_prime ∷ rest, rw e, ap suc l)

mds_multiply_total :
    (t : ℕ) (rows : List (List ℕ)) (state : List ℕ)
    → t ≤ length rows
    → All (λ row. length state ≤ length row) rows
    → (out : List ℕ) × (mds_multiply t rows state ≡ ok out) × (length out ≡ t) × All IsFelt out
unfolding mds_multiply
mds_multiply_total zero rows state h a = ([], refl, refl, tt)
mds_multiply_total (suc t) [] state h a = absurd (omega arith)
mds_multiply_total (suc t) (row ∷ rows) state h a =
    let (x, ex, fx) = dot_total row state 0 a.0 (omega arith) in
    let (rest, er, lr, fr) = mds_multiply_total t rows state (omega arith) a.1 in
    (x ∷ rest, rw (ex, er), ap suc lr, (fx, fr))

length-s_box : (full : Bool) (state : List ℕ) → length (s_box full state) ≡ length state
unfolding s_box
length-s_box true state = length-map state pow5
length-s_box false [] = refl
length-s_box false (s ∷ state) = refl

module _ (t n_rp : ℕ) (ct : List ℕ) (mt : List (List ℕ)) where
  round_total :
      (r : ℕ) (state : List ℕ)
      → t ≤ length mt
      → All (λ row. t ≤ length row) mt
      → suc r * t ≤ length ct
      → length state ≡ t
      → (out : List ℕ) × (round t n_rp ct mt r state ≡ ok out) × (length out ≡ t) × All IsFelt out
  unfolding round
  round_total r state hm ha hc l =
      let (added, ea, la) =
        add_constants_total state (drop (r * t) ct) (omega (arith, length-drop (r * t) ct)) in
      let mixed = s_box (is_full n_rp r) added in
      let same : length mixed ≡ t = omega (arith, length-s_box (is_full n_rp r) added) in
      let (out, eo, lo, fo) = mds_multiply_total t mt mixed hm (rw same ha) in
      (out, rw ea eo, lo, fo)

  rounds_total :
      (n r total : ℕ) (state : List ℕ)
      → r + n ≡ total
      → t ≤ length mt
      → All (λ row. t ≤ length row) mt
      → total * t ≤ length ct
      → length state ≡ t
      → All IsFelt state
      → (out : List ℕ) × (rounds t n_rp ct mt n r state ≡ ok out)
        × (length out ≡ t)
        × All IsFelt out
  unfolding rounds
  rounds_total zero r total state e hm ha hc l f = (state, refl, l, f)
  rounds_total (suc n) r total state e hm ha hc l f =
      let room : suc r * t ≤ length ct = grind arith in
      let (next, en, ln, fn) = round_total r state hm ha room l in
      let (out, eo, lo, fo) = rounds_total n (suc r) total next (omega arith) hm ha hc ln fn in
      (out, rw en eo, lo, fo)

pub map_mod-IsFelt : (xs : List ℕ) → All IsFelt (map (λ a. a % bn254_prime) xs)
map_mod-IsFelt [] = tt
map_mod-IsFelt (x ∷ xs) = (omega arith, map_mod-IsFelt xs)

-- What the hash returns, given what its rounds return.
poseidon_hash-eq-ok :
    (k : Constants) (inputs out : List ℕ)
    → 0 < length inputs
    → length inputs ≤ 16
    → FitsArity k (length inputs)
    → rounds
        (suc (length inputs))
        (get_or n_rounds_p (length inputs - 1) 0)
        (get_or k.round_constants (length inputs - 1) [])
        (get_or k.mds (length inputs - 1) [])
        (n_rounds_f + get_or n_rounds_p (length inputs - 1) 0)
        0
        (0 ∷ map (λ a. a % bn254_prime) inputs)
      ≡ ok out
    → 0 < length out
    → poseidon_hash k inputs ≡ ok (get_or out 0 0)
unfolding poseidon_hash
poseidon_hash-eq-ok k inputs out pos small fits eo lo =
    let some_input : (length inputs == 0) ≡ false = ground arith in
    let few_inputs : ltb 16 (length inputs) ≡ false = ground arith in
    let n = length inputs in
    rw
      (
        some_input,
        few_inputs,
        index_total n_rounds_p (n - 1) 0 (omega arith),
        index_total k.round_constants (n - 1) [] fits.has_constants,
        index_total k.mds (n - 1) [] fits.has_mds,
        eo,
        poseidon_hash,
      )
      (index_total out 0 0 lo)

-- With tables of the vendored shape, one to sixteen inputs always hash to a field element: no
-- table read is out of range and no exception is raised.
pub poseidon_hash-IsFelt :
    (k : Constants) (inputs : List ℕ)
    → 0 < length inputs
    → length inputs ≤ 16
    → FitsArity k (length inputs)
    → (x : ℕ) × (poseidon_hash k inputs ≡ ok x) × IsFelt x
unfolding poseidon_hash
poseidon_hash-IsFelt k inputs pos small fits =
    let n = length inputs in
    let n_rp = get_or n_rounds_p (n - 1) 0 in
    let start = 0 ∷ map (λ a. a % bn254_prime) inputs in
    let (out, eo, lo, fo) =
      rounds_total (suc n) n_rp (get_or k.round_constants (n - 1) []) (get_or k.mds (n - 1) [])
        (n_rounds_f + n_rp) 0 (n_rounds_f + n_rp) start (omega arith) fits.enough_rows
        fits.long_rows fits.enough_constants
        (omega (arith, length-map inputs (λ a. a % bn254_prime)))
        (omega arith, map_mod-IsFelt inputs) in
    (
      get_or out 0 0,
      poseidon_hash-eq-ok k inputs out pos small fits eo (omega arith),
      All-get_or IsFelt out 0 0 fo (omega arith),
    )

map_mod_mod :
    (xs : List ℕ)
    → map (λ a. a % bn254_prime) (map (λ a. a % bn254_prime) xs) ≡ map (λ a. a % bn254_prime) xs
map_mod_mod [] = refl
map_mod_mod (x ∷ xs) = rw (map_mod_mod xs, mod-mod x bn254_prime)

-- The hash depends on its inputs only modulo the field: reducing them first changes nothing, the
-- exceptions included.
pub poseidon_hash-mod :
    (k : Constants) (inputs : List ℕ)
    → poseidon_hash k (map (λ a. a % bn254_prime) inputs) ≡ poseidon_hash k inputs
unfolding poseidon_hash
poseidon_hash-mod k inputs = rw (length-map inputs (λ a. a % bn254_prime), map_mod_mod inputs)
