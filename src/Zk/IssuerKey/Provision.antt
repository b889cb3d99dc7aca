-- ===== src/Zk/IssuerKey/Provision.antt =====
-- The key of a credDef is provisioned once, and the cache says what the storage holds.
use aca_py_did_kanon.Prelude.{
  Result-cases, ok_inj, err_ne_ok, ℕ, ◌≡◌, ◌≢◌, refl, sym, ap, subst, ◌∙◌, inl, inr, none, some, [],
  arith, Bool-cases, Option-cases, Bytes, bytes_eq, bytes_eq_iff, Result, ok, err,
}
use aca_py_did_kanon.Prelude.Dict.{get, get-put, get-pop, get-put_self}
use aca_py_did_kanon.Prelude.Decimal.{from_dec-to_dec}
use aca_py_did_kanon.Storage.{
  Storage, StorageLaws, StorageFrame, Json, parsed, upsert, get_record-upsert,
  get_record-upsert_other,
}
use aca_py_did_kanon.Contracts.Convert.{BytesLike}
use aca_py_did_kanon.Zk.IssuerKey.{
  issuer_key_record_type, record_id, IssuerKey, KeyRecord, KeyWorld, int_entry, cache_key, add_lock,
  key_record, read_raw, load_record, save_record, normalize_cred_def_id, provision_locked,
  provision_public_key, load_public_key, invalidate,
}
use aca_py_did_kanon.Zk.IssuerKey.Ids.{record_id_inj}

some_inj {ℓ} : {A : Type ℓ} {a b : A} → some a ≡ some b → a ≡ b
some_inj h = cc

module _ {S : Type 0} (st : Storage (Json KeyRecord) S) where
  -- Every cached pair is the one in the storage.
  abbrev pub IsConsistent : KeyWorld S → Type 0
  IsConsistent world =
      (norm : Bytes) (pair : ℕ × ℕ)
      → get norm world.public_cache ≡ some pair
      → load_record st norm world.store ≡ ok (some pair)

  -- The key's record in the storage, with its private part.
  abbrev pub HoldsKey : Bytes → S → IssuerKey → Type 0
  HoldsKey norm s key =
      st.get_record s issuer_key_record_type (record_id norm) ≡ ok (some (parsed (key_record key)))

  pub load_record-HoldsKey :
      (norm : Bytes) (s : S) (key : IssuerKey)
      → HoldsKey norm s key
      → load_record st norm s ≡ ok (some (key.a_x, key.a_y))
  unfolding load_record read_raw int_entry
  load_record-HoldsKey norm s key h =
      rw (h, from_dec-to_dec key.a_x, from_dec-to_dec key.a_y, load_record, read_raw, int_entry)
        refl

  pub load_record-cong :
      (norm : Bytes) (s s' : S)
      → st.get_record s' issuer_key_record_type (record_id norm)
        ≡ st.get_record s issuer_key_record_type (record_id norm)
      → load_record st norm s' ≡ load_record st norm s
  unfolding load_record read_raw
  load_record-cong norm s s' h = rw (h, load_record, read_raw) refl

  cache_key-IsConsistent :
      (norm : Bytes) (pair : ℕ × ℕ) (world : KeyWorld S)
      → IsConsistent world
      → load_record st norm world.store ≡ ok (some pair)
      → IsConsistent (cache_key norm pair world)
  cache_key-IsConsistent norm pair world all h n p found = elim (Bool-cases (bytes_eq norm n)) [
    | inl same ↦
        let e : norm ≡ n = ground (arith, bytes_eq_iff norm n) in
        let p_eq : pair ≡ p =
          some_inj (sym (get-put norm n pair world.public_cache ∙ rw same refl) ∙ found) in
        subst (λ m. load_record st m world.store ≡ ok (some p)) e (h ∙ ap (λ q. ok (some q)) p_eq)
    | inr other ↦ all n p (sym (get-put norm n pair world.public_cache ∙ rw other refl) ∙ found)
  ]

  -- A saved key is held, and the other records stay.
  save-IsConsistent :
      (norm : Bytes) (key : IssuerKey) (world : KeyWorld S) (s' : S)
      → StorageLaws st
      → StorageFrame st
      → IsConsistent world
      → get norm world.public_cache ≡ none
      → upsert st world.store issuer_key_record_type (record_id norm) (parsed (key_record key))
        ≡ ok s'
      → IsConsistent (cache_key norm (key.a_x, key.a_y) (record world { store = s' }))
  save-IsConsistent norm key world s' laws frame all absent h =
      let held : HoldsKey norm s' key =
        get_record-upsert st world.store s' issuer_key_record_type (record_id norm)
          (parsed (key_record key)) laws h in
      cache_key-IsConsistent norm (key.a_x, key.a_y) (record world { store = s' })
        (λ n p found.
          let ne : record_id norm ≢ record_id n = λ e.
            none_ne_some
              (sym absent ∙ ap (λ m. get m world.public_cache) (record_id_inj norm n e) ∙ found) in
          load_record-cong n world.store s' (
            get_record-upsert_other st world.store s' issuer_key_record_type (record_id norm)
              (record_id n) (parsed (key_record key)) frame h ne)
          ∙ all n p found)
        (load_record-HoldsKey norm s' key held)
    where
      none_ne_some : {p : ℕ × ℕ} → none ≡ some p → ⊥
      none_ne_some h = cc

  -- What a call that provisions gives: a consistent world, and its pair in the cache.
  abbrev IsProvisioned : Bytes → Result (ℕ × ℕ) × KeyWorld S → Type 0
  IsProvisioned norm r =
      IsConsistent r.1 × ((pair : ℕ × ℕ) → r.0 ≡ ok pair → get norm r.1.public_cache ≡ some pair)

  provision_locked-IsProvisioned :
      (generated : IssuerKey) (norm : Bytes) (world : KeyWorld S)
      → StorageLaws st
      → StorageFrame st
      → IsConsistent world
      → IsProvisioned norm (provision_locked st generated norm world)
  unfolding provision_locked save_record
  provision_locked-IsProvisioned generated norm world laws frame all =
      elim (Option-cases (get norm world.public_cache)) [
        | inr (pair, cached) ↦
            let step : provision_locked st generated norm world ≡ (ok pair, world) =
              rw (cached, provision_locked) refl in
            subst (IsProvisioned norm) (sym step) (all, λ p e. cached ∙ ap some (ok_inj e))
        | inl absent ↦ elim (Result-cases (load_record st norm world.store)) [
          | inr (e, el) ↦
              let step : provision_locked st generated norm world ≡ (err e, world) =
                rw (absent, el, provision_locked) refl in
              subst (IsProvisioned norm) (sym step) (all, λ p h. absurd (err_ne_ok h))
          | inl (some pair, el) ↦
              let step : provision_locked st generated norm world
                  ≡ (ok pair, cache_key norm pair world) =
                rw (absent, el, provision_locked) refl in
              subst (IsProvisioned norm) (sym step) (
                cache_key-IsConsistent norm pair world all el,
                λ p e. get-put_self norm pair world.public_cache ∙ ap some (ok_inj e),
              )
          | inl (none, el) ↦
              elim (Result-cases (
                upsert st world.store issuer_key_record_type (record_id norm)
                  (parsed (key_record generated)))) [
                    | inr (e, eu) ↦
                        let step : provision_locked st generated norm world ≡ (err e, world) =
                          rw (absent, el, eu, provision_locked, save_record) refl in
                        subst (IsProvisioned norm) (sym step) (all, λ p h. absurd (err_ne_ok h))
                    | inl (s', eu) ↦
                        let pair : ℕ × ℕ = (generated.a_x, generated.a_y) in
                        let step : provision_locked st generated norm world
                            ≡ (ok pair, cache_key norm pair (record world { store = s' })) =
                          rw (absent, el, eu, provision_locked, save_record) refl in
                        subst (IsProvisioned norm) (sym step) (
                          save-IsConsistent norm generated world s' laws frame all absent eu,
                          λ p e. get-put_self norm pair world.public_cache ∙ ap some (ok_inj e),
                        )
                  ]
        ]
      ]

  provision-IsProvisioned :
      (generated : IssuerKey) (cred_def_id : BytesLike) (norm : Bytes) (world : KeyWorld S)
      → StorageLaws st
      → StorageFrame st
      → IsConsistent world
      → normalize_cred_def_id cred_def_id ≡ ok norm
      → IsProvisioned norm (provision_public_key st generated cred_def_id world)
  unfolding provision_public_key
  provision-IsProvisioned generated cred_def_id norm world laws frame all en =
      elim (Option-cases (get norm world.public_cache)) [
        | inr (pair, cached) ↦
            let step : provision_public_key st generated cred_def_id world ≡ (ok pair, world) =
              rw (en, cached, provision_public_key) refl in
            subst (IsProvisioned norm) (sym step) (all, λ p e. cached ∙ ap some (ok_inj e))
        | inl absent ↦
            let step : provision_public_key st generated cred_def_id world
                ≡ provision_locked st generated norm (add_lock norm world) =
              rw (en, absent, provision_public_key) refl in
            subst (IsProvisioned norm) (sym step)
              (provision_locked-IsProvisioned generated norm (add_lock norm world) laws frame all)
      ]

  -- With a storage that reads back what is written, and a cache that says what the storage holds:
  -- when provisioning returns a pair, the cache still says what the storage holds, the storage holds
  -- this pair under the credDef's key, and provisioning again, whatever key would be generated then,
  -- returns the same pair and changes nothing.
  pub provision_again :
      (generated generated' : IssuerKey) (cred_def_id : BytesLike) (norm : Bytes)
      (world world' : KeyWorld S) (pair : ℕ × ℕ)
      → StorageLaws st
      → StorageFrame st
      → IsConsistent world
      → normalize_cred_def_id cred_def_id ≡ ok norm
      → provision_public_key st generated cred_def_id world ≡ (ok pair, world')
      → IsConsistent world'
        × (load_record st norm world'.store ≡ ok (some pair))
        × (provision_public_key st generated' cred_def_id world' ≡ (ok pair, world'))
  unfolding provision_public_key
  provision_again generated generated' cred_def_id norm world world' pair laws frame all en h =
      let (consistent, entry) =
        subst (IsProvisioned norm) h
          (provision-IsProvisioned generated cred_def_id norm world laws frame all en) in
      let cached = entry pair refl in
      (consistent, consistent norm pair cached, rw (en, cached, provision_public_key) refl)

  -- Loading and dropping a public key keep the cache true to the storage, and a service with an empty
  -- cache loads the pair that the storage holds.
  pub load_public_key_lem :
      (cred_def_id : BytesLike) (norm : Bytes) (pair : ℕ × ℕ) (world : KeyWorld S)
      → IsConsistent world
      → normalize_cred_def_id cred_def_id ≡ ok norm
      → load_record st norm world.store ≡ ok (some pair)
      → IsConsistent ((load_public_key st cred_def_id world).1)
        × IsConsistent ((invalidate st cred_def_id world).1)
        × ((load_public_key st cred_def_id (record world { public_cache = [] })).0 ≡ ok (some pair))
  unfolding load_public_key invalidate get
  load_public_key_lem cred_def_id norm pair world all en h = (
    loaded,
    rw (en, invalidate)
        (λ n p found. elim (Bool-cases (bytes_eq norm n)) [
          | inl same ↦
              absurd (none_ne_some (sym (get-pop norm n world.public_cache ∙ rw same refl) ∙ found))
          | inr other ↦ all n p (sym (get-pop norm n world.public_cache ∙ rw other refl) ∙ found)
        ]),
    rw (en, h, load_public_key) refl,
  )
    where
      none_ne_some : {p : ℕ × ℕ} → none ≡ some p → ⊥
      none_ne_some h = cc

      loaded : IsConsistent ((load_public_key st cred_def_id world).1)
      loaded = elim (Option-cases (get norm world.public_cache)) [
        | inr (q, cached) ↦ rw (en, cached, load_public_key) all
        | inl absent ↦
            rw (en, absent, h, load_public_key) (cache_key-IsConsistent norm pair world all h)
      ]
