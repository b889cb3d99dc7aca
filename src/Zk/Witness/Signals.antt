-- ===== src/Zk/Witness/Signals.antt =====
-- What a witness that was calculated says of the inputs.
use aca_py_did_kanon.Prelude.{
  ℕ, zero, suc, ◌+◌, ◌/◌, ◌%◌, ◌^◌, ◌≤◌, ◌≡◌, sym, ap, ◌∙◌, Bool, arith, Option, none, some, List,
  [], ◌∷◌, ltb, ltb_false→ge, length, All, Bytes, ok, ok_inj, witness_error, raise_if, >>=-eq-ok,
}
use aca_py_did_kanon.Prelude.Dict.{Dict}
use aca_py_did_kanon.Prelude.Text.{ℤ}
use aca_py_did_kanon.Prelude.Value.{Fields}
use aca_py_did_kanon.Contracts.MerkleState.Batch.{unless-raised}
use aca_py_did_kanon.Zk.Witness.{
  Circuit, fnv_hash, check_size, set_signal, set_signals, read_witness, calculate_witness,
}
use aca_py_did_kanon.Zk.Witness.Inputs.{qualify_fields}

-- The number of values in all.
unfoldable pub total_values : Dict (List ℤ) → ℕ
total_values [] = 0
total_values ((k, flat) ∷ qualified) = length flat + total_values qualified

module _ {S : Type 0} (c : Circuit S) where
  -- The circuit has a signal of that name, of the size of the values for it.
  abbrev pub Fits : Bytes × List ℤ → Type 0
  Fits entry =
      (h : ℕ) × (fnv_hash entry.0 ≡ ok h)
      × (s : S) × (c.get_input_signal_size s (h / 2 ^ 32 % 2 ^ 32) (h % 2 ^ 32)
          ≡ ok (some (length entry.1)))

  check_size-ok :
      (size : Option ℕ) (flat : List ℤ) (u : Unit {0})
      → check_size c size flat ≡ ok u
      → size ≡ some (length flat)
  unfolding check_size
  check_size-ok none flat u h = cc
  check_size-ok (some size) flat u h = ap some (ground arith)

  set_signal-Fits :
      (k : Bytes) (flat : List ℤ) (s s' : S) → set_signal c k flat s ≡ ok s' → Fits (k, flat)
  unfolding set_signal
  set_signal-Fits k flat s s' e =
      let (h, eh, e1) = >>=-eq-ok (fnv_hash k) _ e in
      let (size, es, e2) =
        >>=-eq-ok (c.get_input_signal_size s (h / 2 ^ 32 % 2 ^ 32) (h % 2 ^ 32)) _ e1 in
      let (u, ec, e3) = >>=-eq-ok (check_size c size flat) _ e2 in
      (h, eh, s, es ∙ ap ok (check_size-ok size flat u ec))

  set_signals-Fits :
      (qualified : Dict (List ℤ)) (count : ℕ) (s : S) (r : ℕ × S)
      → set_signals c qualified count s ≡ ok r
      → All Fits qualified × (r.0 ≡ count + total_values qualified)
  unfolding set_signals total_values
  set_signals-Fits [] count s r e = (tt, ap (λ (p : ℕ × S). p.0) (sym (ok_inj e)) ∙ omega arith)
  set_signals-Fits ((k, flat) ∷ qualified) count s r e =
      let (s', es, e1) = >>=-eq-ok (set_signal c k flat s) _ e in
      let (rest, total) = set_signals-Fits qualified (count + length flat) s' r e1 in
      ((set_signal-Fits k flat s s' es, rest), omega (arith, total))

  length-read_witness : (n i : ℕ) (s : S) (w : List ℕ) → read_witness c n i s ≡ ok w → length w ≡ n
  unfolding read_witness
  length-read_witness zero i s w e = ap length (sym (ok_inj e))
  length-read_witness (suc n) i s w e =
      let (next, en, e1) = >>=-eq-ok (c.get_witness i s) _ e in
      let (rest, er, e2) = >>=-eq-ok (read_witness c n (suc i) next) _ e1 in
      ap length (sym (ok_inj e2)) ∙ ap suc (length-read_witness n (suc i) next rest er)

  -- Where a witness is calculated, the inputs have flat lists of numbers under their dotted names, the
  -- circuit has a signal for each name with exactly as many values, no fewer values are set in all than
  -- the circuit asks for, and the witness has the length that the circuit says.
  pub calculate_witness_lem :
      (inputs : Fields) (sanity_check : Bool) (s : S) (w : List ℕ)
      → calculate_witness c inputs sanity_check s ≡ ok w
      → (qualified : Dict (List ℤ)) × (qualify_fields [] inputs [] ≡ ok qualified)
        × All Fits qualified
        × (c.input_size ≤ total_values qualified)
        × (length w ≡ c.witness_size)
  unfolding calculate_witness
  calculate_witness_lem inputs sanity_check s w e =
      let (started, e0, e1) = >>=-eq-ok (c.init sanity_check s) _ e in
      let (qualified, eq, e2) = >>=-eq-ok (qualify_fields [] inputs []) _ e1 in
      let (counted, ec, e3) = >>=-eq-ok (set_signals c qualified 0 started) _ e2 in
      let (u, eu, e4) = >>=-eq-ok (raise_if (ltb counted.0 c.input_size) witness_error) _ e3 in
      let (fits, total) = set_signals-Fits qualified 0 started counted ec in
      let enough : c.input_size ≤ counted.0 =
        ltb_false→ge counted.0 c.input_size
          (unless-raised (ltb counted.0 c.input_size) witness_error u eu) in
      (
        qualified,
        eq,
        fits,
        omega (arith, total, enough),
        length-read_witness c.witness_size 0 counted.1 w e4,
      )
