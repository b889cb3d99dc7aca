-- ===== src/Zk/Prover/Proofs.antt =====
-- zk/groth16_prover.py: what a proof that is returned stands for.
use aca_py_did_kanon.Prelude.{
  ℕ, ◌+◌, ◌*◌, ◌%◌, ◌≡◌, sym, ap, ◌∙◌, false, Option, none, some, List, [], ◌∷◌, map, length, drop,
  Bytes, Result, ok, err_ne_ok, ok_inj, >>=-eq-ok,
}
use aca_py_did_kanon.Prelude.Decimal.{from_dec}
use aca_py_did_kanon.Prelude.Value.{Fields}
use aca_py_did_kanon.Zk.Witness.{calculate_witness}
use aca_py_did_kanon.Zk.Witness.Signals.{calculate_witness_lem}
use aca_py_did_kanon.Zk.Prover.{
  Run, no_binary, nonzero_exit, raised, finished, ints, read_run, snarkjs_prove, write_wtns,
  Calculator, get_calculator, prove,
}
use aca_py_did_kanon.Zk.Prover.Wtns.{read_values, read_values-write_wtns}

-- The texts and the numbers that they are.
abbrev pub Reads : List Bytes → List ℕ → Type 0
Reads texts signals = map from_dec texts ≡ map ok signals

ints-Reads : (texts : List Bytes) (signals : List ℕ) → ints texts ≡ ok signals → Reads texts signals
unfolding ints
ints-Reads [] signals h = ap (map ok) (ok_inj h)
ints-Reads (t ∷ texts) signals h =
    let (n, en, h1) = >>=-eq-ok (from_dec t) _ h in
    let (ns, es, h2) = >>=-eq-ok (ints texts) _ h1 in
    let rest = ints-Reads texts ns es in
    let here : Reads (t ∷ texts) (n ∷ ns) = λ i. en i ∷ rest i in here ∙ ap (map ok) (ok_inj h2)

-- The run ended well, with this proof and these signals.
read_run-ok :
    {Proof : Type 0} (run : Run Proof) (proof : Proof) (signals : List ℕ)
    → read_run run ≡ ok (proof, signals)
    → (texts : List Bytes) × (run ≡ finished (ok proof) (ok texts)) × Reads texts signals
unfolding read_run
read_run-ok no_binary proof signals h = absurd (err_ne_ok h)
read_run-ok nonzero_exit proof signals h = absurd (err_ne_ok h)
read_run-ok (raised e) proof signals h = absurd (err_ne_ok h)
read_run-ok (finished proof_json public_json) proof signals h =
    let (p, ep, h1) = >>=-eq-ok proof_json _ h in
    let (texts, et, h2) = >>=-eq-ok public_json _ h1 in
    let (ns, en, h3) = >>=-eq-ok (ints texts) _ h2 in
    let same = ok_inj h3 in
    let p_eq : p ≡ proof = ap (λ r. r.0) same in
    let n_eq : ns ≡ signals = ap (λ r. r.1) same in
    (texts, cc, ints-Reads texts signals (en ∙ ap ok n_eq))

-- The calculator in use, and without one the one that is made.
abbrev pub IsCalculator :
    {S : Type 0} → Result (Calculator S) → Option (Calculator S) → Calculator S → Type 0
IsCalculator made none calc = made ≡ ok calc
IsCalculator made (some current) calc = calc ≡ current

get_calculator-IsCalculator :
    {S : Type 0} (made : Result (Calculator S)) (in_use : Option (Calculator S))
    (calc : Calculator S)
    → get_calculator made in_use ≡ ok calc
    → IsCalculator made in_use calc
unfolding get_calculator
get_calculator-IsCalculator made none calc h = h
get_calculator-IsCalculator made (some current) calc h = sym (ok_inj h)

-- Where `prove` returns, the witness is that of the calculator in use, or of a new one if there is none,
-- and has the length that its circuit says; snarkjs ran without an error on a file of 76 bytes and 32
-- for each value, from which the values modulo the prime are read back; and the result is the proof that
-- it wrote and its public signals, each of which is a number.
pub prove_lem :
    {S Proof : Type 0} (made : Result (Calculator S)) (snarkjs : Bytes → Run Proof)
    (in_use : Option (Calculator S)) (inputs : Fields) (proof : Proof) (signals : List ℕ)
    → prove made snarkjs in_use inputs ≡ ok (proof, signals)
    → (calc : Calculator S) × IsCalculator made in_use calc
      × (witness : List ℕ) × (calculate_witness calc.circuit inputs false calc.instance_state
          ≡ ok witness)
      × (length witness ≡ calc.circuit.witness_size)
      × (file : Bytes) × (length file ≡ 76 + 32 * length witness)
      × (read_values (length witness) (drop 76 file) ≡ map (λ w. w % calc.circuit.prime) witness)
      × (texts : List Bytes) × (snarkjs file ≡ finished (ok proof) (ok texts))
      × Reads texts signals
unfolding prove snarkjs_prove
prove_lem made snarkjs in_use inputs proof signals h =
    let (calc, e0, h0) = >>=-eq-ok (get_calculator made in_use) _ h in
    let (witness, e1, h1) =
      >>=-eq-ok (calculate_witness calc.circuit inputs false calc.instance_state) _ h0 in
    let (file, e2, h2) =
      >>=-eq-ok (write_wtns witness calc.circuit.witness_size calc.circuit.prime) _ h1 in
    let (names, eq, fits, enough, long) =
      calculate_witness_lem calc.circuit inputs false calc.instance_state witness e1 in
    let (size, values) =
      read_values-write_wtns witness calc.circuit.witness_size calc.circuit.prime file e2 in
    let (texts, run, reads) = read_run-ok (snarkjs file) proof signals h2 in
    let which = get_calculator-IsCalculator made in_use calc e0 in
    (calc, which, witness, e1, long, file, size, values, texts, run, reads)
