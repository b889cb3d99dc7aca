-- ===== src/Zk/Prover.antt =====
-- zk/groth16_prover.py: the WTNS file that is handed to snarkjs, and `prove` about it. The run of
-- snarkjs on a file is an argument.
pub mod Wtns
pub mod Proofs
mod Tests
use aca_py_did_kanon.Prelude.{
  ℕ, zero, suc, ◌+◌, ◌*◌, ◌%◌, ◌^◌, Bool, false, not, Option, none, some, List, [], ◌∷◌, ◌++◌, ltb,
  if◌then◌else◌, Bytes, Error, Result, ok, err, overflow_error, other_error, prover_error, os_error,
  ◌>>=◌,
}
use aca_py_did_kanon.Prelude.Hex.{codes}
use aca_py_did_kanon.Prelude.Decimal.{from_dec}
use aca_py_did_kanon.Prelude.Words.{to_le}
use aca_py_did_kanon.Prelude.Value.{Fields}
use aca_py_did_kanon.Zk.Witness.{Circuit, calculate_witness}

-- `struct.pack("<I", x)` and `struct.pack("<Q", x)`, which raise `struct.error` on a number that is too
-- large.
unfoldable pub pack : ℕ → ℕ → Result Bytes
pack size x = if ltb x (256 ^ size) then ok (to_le size x) else err other_error

-- `field_to_bytes_le`
unfoldable pub field_to_bytes_le : ℕ → ℕ → Result Bytes
field_to_bytes_le prime x =
    if ltb (x % prime) (256 ^ 32) then ok (to_le 32 (x % prime)) else err overflow_error

-- The loop over the witness.
unfoldable pub field_bytes : ℕ → List ℕ → Result Bytes
unfolding field_to_bytes_le
field_bytes prime [] = ok []
field_bytes prime (w ∷ witness) = do
  b ← field_to_bytes_le prime w
  bs ← field_bytes prime witness
  ok (b ++ bs)

-- `_write_wtns`: the bytes of the file.
unfoldable pub write_wtns : List ℕ → ℕ → ℕ → Result Bytes
write_wtns witness witness_size prime = do
  version ← pack 4 2
  sections ← pack 4 2
  first ← pack 4 1
  header_size ← pack 8 40
  n8 ← pack 4 32
  modulus ← field_to_bytes_le prime prime
  size ← pack 4 witness_size
  second ← pack 4 2
  section_size ← pack 8 (witness_size * 32)
  values ← field_bytes prime witness
  ok (
      codes "wtns"
      ++ (version
          ++ (sections
              ++ (first
                  ++ (header_size
                      ++ (n8 ++ (modulus ++ (size ++ (second ++ (section_size ++ values))))))))))

-- What running snarkjs on the file comes to: an exception, or its two files as `json.load` reads them,
-- the public signals as texts.
pub data Run (Proof : Type 0) : Type 0 where
  no_binary : Run Proof
  nonzero_exit : Run Proof
  raised : Error → Run Proof
  finished : Result Proof → Result (List Bytes) → Run Proof

-- `[int(x) for x in public]`
unfoldable pub ints : List Bytes → Result (List ℕ)
ints [] = ok []
ints (t ∷ public) = do n ← from_dec t; ns ← ints public; ok (n ∷ ns)

-- The `try` about `subprocess.run`, and the reading of the two files.
unfoldable pub read_run : {Proof : Type 0} → Run Proof → Result (Proof × List ℕ)
unfolding ints
read_run no_binary = err prover_error
read_run nonzero_exit = err prover_error
read_run (raised e) = err e
read_run (finished proof_json public_json) = do
  proof ← proof_json
  public ← public_json
  signals ← ints public
  ok (proof, signals)

-- `_snarkjs_prove`, for snarkjs as a function of the bytes of the file.
unfoldable pub snarkjs_prove :
    {Proof : Type 0} → (Bytes → Run Proof) → List ℕ → ℕ → ℕ → Result (Proof × List ℕ)
unfolding read_run
snarkjs_prove snarkjs witness witness_size prime = do
  file ← write_wtns witness witness_size prime
  read_run (snarkjs file)

-- A `WitnessCalculator`: the circuit, and its WASM instance as a call finds it.
pub record Calculator (S : Type 0) : Type 0 where
  pub circuit : Circuit S
  pub instance_state : S

-- `_get_calculator`: the calculator in use, and else a new one, whose making may raise.
unfoldable pub get_calculator :
    {S : Type 0} → Result (Calculator S) → Option (Calculator S) → Result (Calculator S)
get_calculator made none = made
get_calculator made (some calculator) = ok calculator

-- `prove`
unfoldable pub prove :
    {S Proof : Type 0}
    → Result (Calculator S)
    → (Bytes → Run Proof)
    → Option (Calculator S)
    → Fields
    → Result (Proof × List ℕ)
unfolding get_calculator snarkjs_prove
prove made snarkjs in_use inputs = do
  calc ← get_calculator made in_use
  witness ← calculate_witness calc.circuit inputs false calc.instance_state
  snarkjs_prove snarkjs witness calc.circuit.witness_size calc.circuit.prime

-- `SnarkjsProver.__init__`, for whether the two files are there: `FileNotFoundError` is an `OSError`, and
-- there is no calculator yet.
unfoldable pub new_prover : {S : Type 0} → Bool → Bool → Result (Option (Calculator S))
new_prover wasm_exists zkey_exists =
    if not wasm_exists then err os_error else if not zkey_exists then err os_error else ok none
