-- ===== src/Anoncreds/RevregState/Lookup.antt =====
-- Reads after writes.
use aca_py_did_kanon.Prelude.{ℕ, ◌≡◌, ◌≢◌, ap, ◌⊎◌, inl, inr, some, Bytes, ok}
use aca_py_did_kanon.Storage.{
  Storage, StorageLaws, StorageFrame, Json, parsed, get_record-upsert, get_record-upsert_other,
}
use aca_py_did_kanon.Anoncreds.RevregState.{
  revreg_meta_record_type, revreg_index_record_type, cred_ex_cred_id_record_type, meta_id, index_id,
  credex_id, RevregMeta, CredexBinding, loads, text_of, save_revreg_meta, load_revreg_meta,
  remember_cred_index, lookup_cred_id, remember_credex_cred_id, lookup_cred_id_by_credex,
}
use aca_py_did_kanon.Anoncreds.RevregState.Ids.{index_id_inj, credex_id_inj, meta_id_inj}

module _ {S : Type 0} (st : Storage Bytes S) (laws : StorageLaws st) (frame : StorageFrame st) where
  -- With a storage that reads back what is written and leaves other records alone: after a credId is
  -- remembered for an index of a registry, its lookup there gives it (None if it is
  -- the empty text), and the lookup at any other index or registry gives what it gave before.
  pub lookup_cred_id-remember_cred_index :
      (s s' : S) (r r' : Bytes) (i j : ℕ) (cred : Bytes)
      → remember_cred_index st s r i cred ≡ ok s'
      → (lookup_cred_id st s' r i ≡ text_of (ok (some cred)))
        × ((r ≢ r') ⊎ (i ≢ j) → lookup_cred_id st s' r' j ≡ lookup_cred_id st s r' j)
  unfolding remember_cred_index lookup_cred_id
  lookup_cred_id-remember_cred_index s s' r r' i j cred h = (
    ap text_of (get_record-upsert st s s' revreg_index_record_type (index_id r i) cred laws h),
    λ other. ap text_of (
        get_record-upsert_other st s s' revreg_index_record_type (index_id r i) (index_id r' j) cred
          frame h (λ e. apart other (index_id_inj r r' i j e))),
  )
    where
      apart : (r ≢ r') ⊎ (i ≢ j) → (r ≡ r') × (i ≡ j) → ⊥
      apart (inl ne) both = ne both.0
      apart (inr ne) both = ne both.1

module _ {S : Type 0} (st : Storage (Json CredexBinding) S) (laws : StorageLaws st)
    (frame : StorageFrame st) where
  -- With such a storage: after a binding is remembered for a credential exchange, its lookup gives credId and credDef, and
  -- the lookup of any other exchange gives what it gave before.
  pub lookup_by_credex-remember :
      (s s' : S) (x y cred cd : Bytes)
      → remember_credex_cred_id st s x cred cd ≡ ok s'
      → (lookup_cred_id_by_credex st s' x
          ≡ some (record { kanon_cred_id = cred; cred_def_id = cd }))
        × (x ≢ y → lookup_cred_id_by_credex st s' y ≡ lookup_cred_id_by_credex st s y)
  unfolding remember_credex_cred_id lookup_cred_id_by_credex loads
  lookup_by_credex-remember s s' x y cred cd h =
      let value : Json CredexBinding = parsed (record { kanon_cred_id = cred; cred_def_id = cd }) in
      (
        ap loads (get_record-upsert st s s' cred_ex_cred_id_record_type (credex_id x) value laws h),
        λ ne. ap loads (
            get_record-upsert_other st s s' cred_ex_cred_id_record_type (credex_id x) (credex_id y)
              value frame h (λ e. ne (credex_id_inj x y e))),
      )

module _ {S : Type 0} (st : Storage (Json RevregMeta) S) (laws : StorageLaws st)
    (frame : StorageFrame st) where
  -- With such a storage: saved metadata is loaded as it was saved, and other registries keep
  -- theirs.
  pub load_revreg_meta-save :
      (s s' : S) (meta : RevregMeta) (r : Bytes)
      → save_revreg_meta st s meta ≡ ok s'
      → (load_revreg_meta st s' meta.rev_reg_id ≡ some meta)
        × (meta.rev_reg_id ≢ r → load_revreg_meta st s' r ≡ load_revreg_meta st s r)
  unfolding save_revreg_meta load_revreg_meta loads
  load_revreg_meta-save s s' meta r h = (
    ap loads (
        get_record-upsert st s s' revreg_meta_record_type (meta_id meta.rev_reg_id) (parsed meta)
          laws h),
    λ ne. ap loads (
        get_record-upsert_other st s s' revreg_meta_record_type (meta_id meta.rev_reg_id)
          (meta_id r) (parsed meta) frame h (λ e. ne (meta_id_inj meta.rev_reg_id r e))),
  )
