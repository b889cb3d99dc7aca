-- ===== src/Storage.antt =====
-- What the program takes from the wallet's `BaseStorage`: records by type and id. `V` is the value
-- of a record, as the JSON text that is written and read back stands for it.
pub mod Memory
use aca_py_did_kanon.Prelude.{
  ◌≡◌, ◌≢◌, refl, sym, ◌∙◌, inl, inr, Option-cases, arith, Option, none, some, Bytes, Result, ok,
  err,
}

pub record Storage (V S : Type 0) : Type 0 where
  pub get_record : S → Bytes → Bytes → Result (Option V)
  pub update_record : S → Bytes → Bytes → V → Result S
  pub add_record : S → Bytes → Bytes → V → Result S

-- The documented behaviour on records of one type: a write that succeeds is read back.
pub record StorageLaws {V S : Type 0} (st : Storage V S) : Type 0 where
  pub get-update :
      (s s' : S) (t i : Bytes) (v : V)
      → st.update_record s t i v ≡ ok s'
      → st.get_record s' t i ≡ ok (some v)
  pub get-add :
      (s s' : S) (t i : Bytes) (v : V)
      → st.add_record s t i v ≡ ok s'
      → st.get_record s' t i ≡ ok (some v)

-- A write leaves the other records of its type alone.
pub record StorageFrame {V S : Type 0} (st : Storage V S) : Type 0 where
  pub get-update_other :
      (s s' : S) (t i j : Bytes) (v : V)
      → st.update_record s t i v ≡ ok s'
      → i ≢ j
      → st.get_record s' t j ≡ st.get_record s t j
  pub get-add_other :
      (s s' : S) (t i j : Bytes) (v : V)
      → st.add_record s t i v ≡ ok s'
      → i ≢ j
      → st.get_record s' t j ≡ st.get_record s t j

-- A record's value as JSON: what parses, or a text that does not.
pub data Json {ℓ} (A : Type ℓ) : Type ℓ where
  parsed : A → Json A
  corrupt : Json A

module _ {V S : Type 0} (st : Storage V S) where
  -- The program's way to write: `existing` is what `get_record` finds, or None if it raises.
  unfoldable pub existing : S → Bytes → Bytes → Option V
  existing s t i = elim (st.get_record s t i) [ ok r ↦ r | err e ↦ none ]

  unfoldable pub upsert : S → Bytes → Bytes → V → Result S
  unfolding existing
  upsert s t i v = elim (existing s t i) [
    | some old ↦ st.update_record s t i v
    | none ↦ st.add_record s t i v
  ]

  pub existing-upsert :
      (s s' : S) (t i : Bytes) (v : V)
      → StorageLaws st
      → upsert s t i v ≡ ok s'
      → existing s' t i ≡ some v
  unfolding upsert existing
  existing-upsert s s' t i v laws h =
      ground (arith, laws.get-update s s' t i v, laws.get-add s s' t i v)

  pub get_record-upsert :
      (s s' : S) (t i : Bytes) (v : V)
      → StorageLaws st
      → upsert s t i v ≡ ok s'
      → st.get_record s' t i ≡ ok (some v)
  unfolding upsert existing
  get_record-upsert s s' t i v laws h =
      ground (arith, laws.get-update s s' t i v, laws.get-add s s' t i v)

  pub get_record-upsert_other :
      (s s' : S) (t i j : Bytes) (v : V)
      → StorageFrame st
      → upsert s t i v ≡ ok s'
      → i ≢ j
      → st.get_record s' t j ≡ st.get_record s t j
  unfolding upsert existing
  get_record-upsert_other s s' t i j v frame h ne = elim (Option-cases (existing s t i)) [
    | inl absent ↦ frame.get-add_other s s' t i j v (sym (rw (absent, upsert) refl) ∙ h) ne
    | inr (old, found) ↦ frame.get-update_other s s' t i j v (sym (rw (found, upsert) refl) ∙ h) ne
  ]
