-- ===== src/Zk/IssuerKey/SplitLock.antt =====
-- zk/zk_issuer_key.py: `invalidate` between two calls of `provision_public_key`.
use aca_py_did_kanon.Prelude.{◌≡◌, refl, true, arith, none, some, [], ◌∷◌, Bytes, bytes_eq_refl, ok}
use aca_py_did_kanon.Prelude.Dict.{get, put, pop}
use aca_py_did_kanon.Storage.{Storage, StorageLaws, Json, parsed, upsert, get_record-upsert}
use aca_py_did_kanon.Zk.IssuerKey.{
  issuer_key_record_type, record_id, IssuerKey, KeyRecord, key_record, load_record,
}
use aca_py_did_kanon.Zk.IssuerKey.Provision.{load_record-HoldsKey}
use aca_py_did_kanon.Zk.IssuerKey.Callers.{
  Call, idle, waits, loads, saves, Services, new_services, setdefault, to_phase, answer, keep,
  update, Step, ask, enter, generate, save, drop, Reach, Reach-trans, here, next,
}

module _ {S : Type 0} (st : Storage (Json KeyRecord) S) (s s1 s2 : S) (norm : Bytes)
    (key key' : IssuerKey) (unprovisioned : load_record st norm s ≡ ok none)
    (saved : upsert st s issuer_key_record_type (record_id norm) (parsed (key_record key)) ≡ ok s1)
    (saved' : upsert st s1 issuer_key_record_type (record_id norm) (parsed (key_record key'))
      ≡ ok s2) where
  abbrev first_call : Call
  first_call = record { service = 0; norm = norm; lock = 0 }

  abbrev later_call : Call
  later_call = record { service = 1; norm = norm; lock = 1 }

  -- The first caller has a key to save, and holds its lock.
  abbrev one_saving : Services S
  one_saving = record (new_services s [] 0) {
    locks = (norm, 0) ∷ [];
    made = 1;
    callers =
        update (update (update (λ i. idle) 0 (waits first_call)) 0 (loads first_call)) 0
          (saves first_call key);
  }

  reaches_saving : Reach st true (new_services s [] 0) one_saving
  unfolding setdefault get put
  reaches_saving =
      next
        (next (next here (ask 0 0 norm refl refl refl))
          (enter 0 first_call refl (λ j d h. ground arith) refl refl))
        (generate 0 first_call key refl unprovisioned refl)

  -- `invalidate` has dropped the lock.
  abbrev dropped : Services S
  dropped = record one_saving { caches = update (λ k. []) 0 []; locks = [] }

  drops : Step st true one_saving dropped
  unfolding pop
  drops = drop 0 norm refl (rw (bytes_eq_refl norm) refl)

  abbrev both_saving : Services S
  both_saving = record dropped {
    locks = (norm, 1) ∷ [];
    made = 2;
    callers =
        update (update (update one_saving.callers 1 (waits later_call)) 1 (loads later_call)) 1
          (saves later_call key');
  }

  reaches_both : Reach st true dropped both_saving
  unfolding setdefault get put
  reaches_both =
      next
        (next (next here (ask 1 1 norm refl refl refl))
          (enter 1 later_call refl (λ j d h. ground arith) refl refl))
        (generate 1 later_call key' refl unprovisioned refl)

  abbrev one_saved : Services S
  one_saved =
      answer norm (key.a_x, key.a_y)
        (keep 0 norm (key.a_x, key.a_y) (to_phase 0 idle (record both_saving { store = s1 })))

  abbrev both_saved : Services S
  both_saved =
      answer norm (key'.a_x, key'.a_y)
        (keep 1 norm (key'.a_x, key'.a_y) (to_phase 1 idle (record one_saved { store = s2 })))

  -- The wallet has no key for the credDef, and takes one, and then another in its place. Then two calls
  -- of `provision_public_key` by two services, with an `invalidate` by the first service between them,
  -- can return the pairs of two keys that are generated, of which the wallet holds the later one.
  pub two_keys :
      StorageLaws st
      → (a : Services S) × Reach st true (new_services s [] 0) a
        × (a.answers ≡ (norm, (key'.a_x, key'.a_y)) ∷ (norm, (key.a_x, key.a_y)) ∷ [])
        × (load_record st norm a.store ≡ ok (some (key'.a_x, key'.a_y)))
  two_keys laws = (
    both_saved,
    next
        (next (Reach-trans st true (next reaches_saving drops) reaches_both)
          (save 0 first_call key s1 refl saved refl))
        (save 1 later_call key' s2 refl saved' refl),
    refl,
    load_record-HoldsKey st norm s2 key' (
        get_record-upsert st s1 s2 issuer_key_record_type (record_id norm)
          (parsed (key_record key')) laws saved'),
  )
