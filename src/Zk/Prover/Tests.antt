-- ===== src/Zk/Prover/Tests.antt =====
-- A file for a witness of two values.
use aca_py_did_kanon.Prelude.{
  ℕ, ◌+◌, ◌*◌, ◌%◌, ◌≡◌, refl, false, none, some, List, [], ◌∷◌, ◌++◌, map, length, take, drop,
  replicate, Bytes, ok,
}
use aca_py_did_kanon.Prelude.Hex.{codes}
use aca_py_did_kanon.Prelude.Words.{to_le}
use aca_py_did_kanon.Zk.Prover.{
  pack, field_to_bytes_le, field_bytes, write_wtns, Run, finished, ints, read_run, snarkjs_prove,
  Calculator, get_calculator, prove,
}
use aca_py_did_kanon.Zk.Prover.Proofs.{Reads, IsCalculator, prove_lem}
use aca_py_did_kanon.Zk.Witness.{Circuit, calculate_witness, set_signal, set_value}
use aca_py_did_kanon.Zk.Witness.Inputs.{qualify_fields, flatten}
use aca_py_did_kanon.Prelude.Dict.{put}
use aca_py_did_kanon.Prelude.Decimal.{from_dec, from_dec_acc}
use aca_py_did_kanon.Prelude.Value.{number, Fields, end, field}
use aca_py_did_kanon.Prelude.Text.{ℤ, pos}
use aca_py_did_kanon.Zk.Prover.Wtns.{read_values, write_wtns_modulus}

abbrev file : Bytes
file =
    codes "wtns"
    ++ (2 ∷ 0 ∷ 0 ∷ 0 ∷ 2 ∷ 0 ∷ 0 ∷ 0 ∷ 1 ∷ 0 ∷ 0 ∷ 0 ∷ 40 ∷ 0 ∷ 0 ∷ 0 ∷ 0 ∷ 0 ∷ 0 ∷ 0 ∷ 32 ∷ 0 ∷ 0
        ∷ 0 ∷ [])
    ++ replicate 32 0
    ++ (2 ∷ 0 ∷ 0 ∷ 0 ∷ 2 ∷ 0 ∷ 0 ∷ 0 ∷ 64 ∷ 0 ∷ 0 ∷ 0 ∷ 0 ∷ 0 ∷ 0 ∷ 0 ∷ [])
    ++ (1 ∷ replicate 31 0)
    ++ (2 ∷ replicate 31 0)

writes : write_wtns (1 ∷ 103 ∷ []) 2 101 ≡ ok file
unfolding write_wtns pack field_to_bytes_le field_bytes to_le
writes = refl

write_wtns_modulus_example : take 32 (drop 28 file) ≡ replicate 32 0
write_wtns_modulus_example = write_wtns_modulus (1 ∷ 103 ∷ []) 2 101 file writes

-- A circuit modulo 101 whose one witness value is what was set last; snarkjs answers with the file.
abbrev circuit : Circuit ℤ
circuit = record {
  n32 = 1;
  prime = 101;
  witness_size = 1;
  input_size = 1;
  init = λ check s. ok s;
  get_input_signal_size = λ s msb lsb. ok (some 1);
  write_shared = λ j w s. w;
  read_shared = λ s i. s;
  set_input_signal = λ msb lsb i s. ok s;
  get_witness = λ i s. ok s;
}

abbrev calculator : Calculator ℤ
calculator = record { circuit = circuit; instance_state = pos 0 }

abbrev snarkjs : Bytes → Run Bytes
snarkjs file = finished (ok file) (ok (codes "42" ∷ []))

abbrev inputs : Fields
inputs = field (codes "a") (number (pos 42)) end

abbrev proof : Bytes
proof =
    codes "wtns"
    ++ (2 ∷ 0 ∷ 0 ∷ 0 ∷ 2 ∷ 0 ∷ 0 ∷ 0 ∷ 1 ∷ 0 ∷ 0 ∷ 0 ∷ 40 ∷ 0 ∷ 0 ∷ 0 ∷ 0 ∷ 0 ∷ 0 ∷ 0 ∷ 32 ∷ 0 ∷ 0
        ∷ 0 ∷ [])
    ++ replicate 32 0
    ++ (1 ∷ 0 ∷ 0 ∷ 0 ∷ 2 ∷ 0 ∷ 0 ∷ 0 ∷ 32 ∷ 0 ∷ 0 ∷ 0 ∷ 0 ∷ 0 ∷ 0 ∷ 0 ∷ [])
    ++ (42 ∷ replicate 31 0)

proves : prove (ok calculator) snarkjs none inputs ≡ ok (proof, 42 ∷ [])
unfolding prove get_calculator snarkjs_prove read_run ints calculate_witness qualify_fields flatten
    put set_signal set_value write_wtns pack field_to_bytes_le field_bytes from_dec from_dec_acc
    to_le
proves = refl

prove_lem_example :
    (calc : Calculator ℤ) × IsCalculator (ok calculator) none calc
    × (witness : List ℕ) × (calculate_witness calc.circuit inputs false calc.instance_state
        ≡ ok witness)
    × (length witness ≡ calc.circuit.witness_size)
    × (file : Bytes) × (length file ≡ 76 + 32 * length witness)
    × (read_values (length witness) (drop 76 file) ≡ map (λ w. w % calc.circuit.prime) witness)
    × (texts : List Bytes) × (snarkjs file ≡ finished (ok proof) (ok texts))
    × Reads texts (42 ∷ [])
prove_lem_example = prove_lem (ok calculator) snarkjs none inputs proof (42 ∷ []) proves
