-- ===== src/Storage/Memory.antt =====
-- A storage in memory, which has the documented behaviour: it stands in for the wallet's in the tests.
use aca_py_did_kanon.Prelude.{
  ok_inj, ◌≡◌, ◌≢◌, refl, ap, subst, ◌∙◌, inl, inr, some, Bytes, bytes_eq, bytes_eq_iff, Bool-cases,
  ok,
}
use aca_py_did_kanon.Prelude.Dict.{Dict, get, put, get-put, get-put_self}
use aca_py_did_kanon.Storage.{Storage, StorageLaws, StorageFrame}

-- The records of one type, by id.
abbrev pub by_id : (V : Type 0) → Storage V (Dict V)
by_id V = record {
  get_record = λ s t i. ok (get i s);
  update_record = λ s t i v. ok (put i v s);
  add_record = λ s t i v. ok (put i v s);
}

get_record-put :
    {V : Type 0} (s s' : Dict V) (i : Bytes) (v : V)
    → ok (put i v s) ≡ ok s'
    → ok (get i s') ≡ ok (some v)
get_record-put s s' i v h =
    subst (λ u. ok (get i u) ≡ ok (some v)) (ok_inj h) (ap ok (get-put_self i v s))

get_record-put_other :
    {V : Type 0} (s s' : Dict V) (i j : Bytes) (v : V)
    → ok (put i v s) ≡ ok s'
    → i ≢ j
    → ok (get j s') ≡ ok (get j s)
get_record-put_other s s' i j v h ne = elim (Bool-cases (bytes_eq i j)) [
  | inl same ↦ absurd (ne ((bytes_eq_iff i j).0 same))
  | inr other ↦
      subst (λ u. ok (get j u) ≡ ok (get j s)) (ok_inj h) (ap ok (get-put i j v s ∙ rw other refl))
]

pub by_id-StorageLaws : (V : Type 0) → StorageLaws (by_id V)
by_id-StorageLaws V = record {
  get-update = λ s s' t i v h. get_record-put s s' i v h;
  get-add = λ s s' t i v h. get_record-put s s' i v h;
}

pub by_id-StorageFrame : (V : Type 0) → StorageFrame (by_id V)
by_id-StorageFrame V = record {
  get-update_other = λ s s' t i j v h ne. get_record-put_other s s' i j v h ne;
  get-add_other = λ s s' t i j v h ne. get_record-put_other s s' i j v h ne;
}
