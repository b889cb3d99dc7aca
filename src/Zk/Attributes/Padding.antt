-- ===== src/Zk/Attributes/Padding.antt =====
-- The padding to the circuit's width.
use aca_py_did_kanon.Prelude.{
  ℕ, zero, suc, ◌-◌, ◌%◌, ◌≤◌, ◌<◌, ◌≡◌, refl, ◌∙◌, List, [], ◌∷◌, ◌++◌, map, arith, ltb, length,
  length-append, length-map, replicate, length-replicate, All, All-append, All-replicate,
  Bool-cases, inl, inr, ok, err, value_error, ltb→lt, ltb_false→ge, lt→ltb, ge→ltb,
}
use mathlib.Core.List.{append_assoc, append-nil}
use aca_py_did_kanon.Zk.Poseidon.{bn254_prime}
use aca_py_did_kanon.Zk.Poseidon.Range.{IsFelt, map_mod-IsFelt}
use aca_py_did_kanon.Zk.Attributes.{circuit_attrs, append_zeros, pad_attrs_to_circuit}

-- With fuel for the places that are free, the loop fills them all.
append_zeros-eq-replicate :
    (fuel : ℕ) (out : List ℕ)
    → length out ≤ circuit_attrs
    → circuit_attrs - length out ≤ fuel
    → append_zeros fuel out ≡ out ++ replicate (circuit_attrs - length out) 0
unfolding append_zeros
append_zeros-eq-replicate zero out l f =
    let full : circuit_attrs - length out ≡ 0 = omega arith in rw (full, append-nil out)
append_zeros-eq-replicate (suc fuel) out l f = elim (Bool-cases (ltb (length out) circuit_attrs)) [
  | inl free ↦
      let lt = ltb→lt _ _ free in
      let grown = length-append out (0 ∷ []) in
      let one_less : circuit_attrs - length out ≡ suc (circuit_attrs - length (out ++ 0 ∷ [])) =
        omega arith in
      rw (free, append_zeros)
        (append_zeros-eq-replicate fuel (out ++ 0 ∷ []) (omega arith) (omega arith)
          ∙ rw one_less
              (append_assoc out (0 ∷ []) (replicate (circuit_attrs - length (out ++ 0 ∷ [])) 0)))
  | inr full ↦
      let none_left : circuit_attrs - length out ≡ 0 = omega (arith, ltb_false→ge _ _ full) in
      rw (full, append_zeros) (rw (none_left, append-nil out))
]

-- At most sixteen values become exactly sixteen field elements: the values in the field, then
-- zeros. More than sixteen are refused with ValueError and never cut.
pub pad_attrs_to_circuit_lem :
    (attrs : List ℕ)
    → (length attrs ≤ 16
        → (out : List ℕ) × (pad_attrs_to_circuit attrs ≡ ok out)
          × (length out ≡ 16)
          × All IsFelt out
          × (out ≡ map (λ a. a % bn254_prime) attrs ++ replicate (16 - length attrs) 0))
      × (16 < length attrs → pad_attrs_to_circuit attrs ≡ err value_error)
unfolding pad_attrs_to_circuit
pad_attrs_to_circuit_lem attrs = (
  λ h.
      let felts = map (λ a. a % bn254_prime) attrs in
      let same = length-map attrs (λ a. a % bn254_prime) in
      let zeros : List ℕ = replicate (16 - length attrs) 0 in
      let padded : append_zeros circuit_attrs felts ≡ felts ++ zeros =
        append_zeros-eq-replicate 16 felts (omega arith) (omega arith) ∙ rw same in
      (
        felts ++ zeros,
        rw (ge→ltb 16 (length attrs) h, pad_attrs_to_circuit) (rw padded),
        omega (arith, length-append felts zeros, length-replicate {A = ℕ} (16 - length attrs) 0),
        All-append IsFelt felts zeros (map_mod-IsFelt attrs)
            (All-replicate IsFelt (16 - length attrs) 0 (omega arith)),
        refl,
      ),
  λ h. rw (lt→ltb 16 (length attrs) h, pad_attrs_to_circuit),
)
