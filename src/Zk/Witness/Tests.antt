-- ===== src/Zk/Witness/Tests.antt =====
-- A circuit whose signals have one value each, and whose witness is the last value set.
use aca_py_did_kanon.Prelude.{
  ℕ, ◌-◌, ◌≤◌, ◌≡◌, refl, false, some, List, [], ◌∷◌, ◌==◌, if◌then◌else◌, length, All, bytes_eq,
  ok,
}
use aca_py_did_kanon.Prelude.Dict.{Dict, put}
use aca_py_did_kanon.Prelude.Hex.{codes}
use aca_py_did_kanon.Prelude.Text.{ℤ, pos, negsuc}
use aca_py_did_kanon.Prelude.Value.{number, object, Fields, end, field}
use aca_py_did_kanon.Zk.Poseidon.{bn254_prime}
use aca_py_did_kanon.Zk.Witness.{
  Circuit, fnv_hash, limbs, to_array32, mask32, to_i32, mod_prime, write_words, read_words,
  set_signal, set_value, set_values, check_size, calculate_witness,
}
use aca_py_did_kanon.Zk.Witness.Inputs.{flatten, qualify_fields}
use aca_py_did_kanon.Zk.Witness.Memory.{MemoryLaws}
use aca_py_did_kanon.Zk.Witness.Signals.{Fits, total_values, calculate_witness_lem}

abbrev circuit : Circuit (ℕ → ℤ)
circuit = record {
  n32 = 8;
  prime = bn254_prime;
  witness_size = 1;
  input_size = 2;
  init = λ check s. ok s;
  get_input_signal_size = λ s msb lsb. ok (some 1);
  write_shared = λ j w s i. if j == i then w else s i;
  read_shared = λ s i. s i;
  set_input_signal = λ msb lsb i s. ok s;
  get_witness = λ i s. ok s;
}

circuit-MemoryLaws : MemoryLaws circuit
circuit-MemoryLaws = record { read-write = λ s j i w. refl }

abbrev blank : ℕ → ℤ
blank i = pos 0

-- `{"a": 5, "b": {"c": -1}}`
abbrev inputs : Fields
inputs =
    field (codes "a") (number (pos 5))
      (field (codes "b") (object (field (codes "c") (number (negsuc 0)) end)) end)

abbrev flat_inputs : Dict (List ℤ)
flat_inputs = (codes "a", pos 5 ∷ []) ∷ (codes "b.c", negsuc 0 ∷ []) ∷ []

qualifies : qualify_fields [] inputs [] ≡ ok flat_inputs
unfolding qualify_fields flatten put bytes_eq
qualifies = refl

-- The FNV-1a hash of "a".
hashes : fnv_hash (codes "a") ≡ ok 12638187200555641996
unfolding fnv_hash
hashes = refl

-- -1 is p - 1 in the field.
calculates : calculate_witness circuit inputs false blank ≡ ok ((bn254_prime - 1) ∷ [])
unfolding calculate_witness qualify_fields flatten put bytes_eq set_signal fnv_hash check_size
    set_values set_value limbs to_array32 mask32 to_i32 mod_prime write_words read_words
calculates = refl

calculate_witness_lem_example :
    (qualified : Dict (List ℤ)) × (qualify_fields [] inputs [] ≡ ok qualified)
    × All (Fits circuit) qualified
    × (2 ≤ total_values qualified)
    × (length ((bn254_prime - 1) ∷ []) ≡ 1)
calculate_witness_lem_example =
    calculate_witness_lem circuit inputs false blank ((bn254_prime - 1) ∷ []) calculates
