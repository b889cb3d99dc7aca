-- ===== src/Zk/Prover/Wtns.antt =====
-- What stands in a WTNS file.
use native.Mathlib.Nat.{mod_self}
use aca_py_did_kanon.Prelude.{
  take-append, drop-append, ℕ, zero, suc, ◌+◌, ◌*◌, ◌%◌, ◌^◌, ◌<◌, ◌≡◌, refl, sym, ap, ◌∙◌, subst,
  inl, inr, arith, Bool-cases, List, [], ◌∷◌, ◌++◌, map, ltb, ltb→lt, length, take, drop, replicate,
  length-append, Bytes, ok, err, ok_inj, err_ne_ok, overflow_error, other_error, >>=-eq-ok,
}
use mathlib.Core.Path.{ap₂}
use aca_py_did_kanon.Prelude.Hex.{codes}
use aca_py_did_kanon.Prelude.Words.{to_le, from_le, from_le-to_le, length-to_le}
use aca_py_did_kanon.Zk.Prover.{pack, field_to_bytes_le, field_bytes, write_wtns}

-- Reading a file's values: `n` numbers of 32 bytes.
unfoldable pub read_values : ℕ → Bytes → List ℕ
read_values zero bs = []
read_values (suc n) bs = from_le (take 32 bs) ∷ read_values n (drop 32 bs)

pack-ok : (size x : ℕ) (bs : Bytes) → pack size x ≡ ok bs → bs ≡ to_le size x
unfolding pack
pack-ok size x bs h = elim (Bool-cases (ltb x (256 ^ size))) [
  | inl fits ↦ let e : ok (to_le size x) ≡ ok bs = sym (rw (fits, pack) refl) ∙ h in sym (ok_inj e)
  | inr large ↦
      let e : err other_error ≡ ok bs = sym (rw (large, pack) refl) ∙ h in absurd (err_ne_ok e)
]

field_to_bytes_le-ok :
    (prime x : ℕ) (bs : Bytes)
    → field_to_bytes_le prime x ≡ ok bs
    → (bs ≡ to_le 32 (x % prime)) × (x % prime < 256 ^ 32)
unfolding field_to_bytes_le
field_to_bytes_le-ok prime x bs h = elim (Bool-cases (ltb (x % prime) (256 ^ 32))) [
  | inl fits ↦
      let e : ok (to_le 32 (x % prime)) ≡ ok bs = sym (rw (fits, field_to_bytes_le) refl) ∙ h in
      (sym (ok_inj e), ltb→lt (x % prime) (256 ^ 32) fits)
  | inr large ↦
      let e : err overflow_error ≡ ok bs = sym (rw (large, field_to_bytes_le) refl) ∙ h in
      absurd (err_ne_ok e)
]

read_values-field_bytes :
    (prime : ℕ) (witness : List ℕ) (bs : Bytes)
    → field_bytes prime witness ≡ ok bs
    → (read_values (length witness) bs ≡ map (λ w. w % prime) witness)
      × (length bs ≡ 32 * length witness)
unfolding field_bytes read_values
read_values-field_bytes prime [] bs h = (refl, ap length (sym (ok_inj h)))
read_values-field_bytes prime (w ∷ witness) bs h =
    let (b, e1, h1) = >>=-eq-ok (field_to_bytes_le prime w) _ h in
    let (rest, e2, h2) = >>=-eq-ok (field_bytes prime witness) _ h1 in
    let (same, fits) = field_to_bytes_le-ok prime w b e1 in
    let (values, size) = read_values-field_bytes prime witness rest e2 in
    let whole : b ++ rest ≡ bs = ok_inj h2 in
    let long : length b ≡ 32 = ap length same ∙ length-to_le 32 (w % prime) in
    subst
      (λ file.
        (from_le (take 32 file) ∷ read_values (length witness) (drop 32 file)
          ≡ w % prime ∷ map (λ x. x % prime) witness)
        × (length file ≡ 32 * suc (length witness)))
      whole
      (
        ap₂ ◌∷◌ (ap from_le (take-append b rest 32 long ∙ same) ∙ from_le-to_le 32 (w % prime) fits)
            (ap (read_values (length witness)) (drop-append b rest 32 long) ∙ values),
        omega (arith, length-append b rest, long, size),
      )

joined : (a b : Bytes) {c d : Bytes} → a ≡ b → c ≡ d → a ++ c ≡ b ++ d
joined a b p q = ap₂ ◌++◌ p q

-- The sections of the file, with the values of the second after 76 bytes.
abbrev layout : ℕ → Bytes → Bytes
layout size values =
    codes "wtns"
    ++ (to_le 4 2
        ++ (to_le 4 2
            ++ (to_le 4 1
                ++ (to_le 8 40
                    ++ (to_le 4 32
                        ++ (to_le 32 0
                            ++ (to_le 4 size
                                ++ (to_le 4 2 ++ (to_le 8 (size * 32) ++ values)))))))))

write_wtns-layout :
    (witness : List ℕ) (size prime : ℕ) (file : Bytes)
    → write_wtns witness size prime ≡ ok file
    → (values : Bytes) × (field_bytes prime witness ≡ ok values) × (file ≡ layout size values)
unfolding write_wtns
write_wtns-layout witness size prime file h =
    let (version, e1, h1) = >>=-eq-ok (pack 4 2) _ h in
    let (sections, e2, h2) = >>=-eq-ok (pack 4 2) _ h1 in
    let (first, e3, h3) = >>=-eq-ok (pack 4 1) _ h2 in
    let (header_size, e4, h4) = >>=-eq-ok (pack 8 40) _ h3 in
    let (n8, e5, h5) = >>=-eq-ok (pack 4 32) _ h4 in
    let (modulus, e6, h6) = >>=-eq-ok (field_to_bytes_le prime prime) _ h5 in
    let (n, e7, h7) = >>=-eq-ok (pack 4 size) _ h6 in
    let (second, e8, h8) = >>=-eq-ok (pack 4 2) _ h7 in
    let (section_size, e9, h9) = >>=-eq-ok (pack 8 (size * 32)) _ h8 in
    let (values, e10, h10) = >>=-eq-ok (field_bytes prime witness) _ h9 in
    let zero_modulus : modulus ≡ to_le 32 0 =
      (field_to_bytes_le-ok prime prime modulus e6).0 ∙ ap (to_le 32) (mod_self prime) in
    (
      values,
      e10,
      sym (ok_inj h10)
          ∙ joined (codes "wtns") (codes "wtns") refl (
              joined _ _ (pack-ok 4 2 version e1) (
                joined _ _ (pack-ok 4 2 sections e2) (
                  joined _ _ (pack-ok 4 1 first e3) (
                    joined _ _ (pack-ok 8 40 header_size e4) (
                      joined _ _ (pack-ok 4 32 n8 e5) (
                        joined _ _ zero_modulus (
                          joined _ _ (pack-ok 4 size n e7) (
                            joined _ _ (pack-ok 4 2 second e8)
                              (joined _ _ (pack-ok 8 (size * 32) section_size e9) refl))))))))),
    )

-- A file that is written has 76 bytes and 32 for each value of the witness, from which the values
-- modulo the prime are read back.
pub read_values-write_wtns :
    (witness : List ℕ) (size prime : ℕ) (file : Bytes)
    → write_wtns witness size prime ≡ ok file
    → (length file ≡ 76 + 32 * length witness)
      × (read_values (length witness) (drop 76 file) ≡ map (λ w. w % prime) witness)
unfolding to_le
read_values-write_wtns witness size prime file h =
    let (values, e, whole) = write_wtns-layout witness size prime file h in
    let (same, long) = read_values-field_bytes prime witness values e in
    subst
      (λ f.
        (length f ≡ 76 + 32 * length witness)
        × (read_values (length witness) (drop 76 f) ≡ map (λ w. w % prime) witness))
      (sym whole) (omega (arith, long), same)

-- The place of the field's modulus in the header, bytes 28 to 59, holds zero in every file that is
-- written, whatever the prime: the modulus is reduced by itself.
pub write_wtns_modulus :
    (witness : List ℕ) (size prime : ℕ) (file : Bytes)
    → write_wtns witness size prime ≡ ok file
    → take 32 (drop 28 file) ≡ replicate 32 0
unfolding to_le
write_wtns_modulus witness size prime file h =
    let (values, e, whole) = write_wtns-layout witness size prime file h in
    subst (λ f. take 32 (drop 28 f) ≡ replicate 32 0) (sym whole) refl
