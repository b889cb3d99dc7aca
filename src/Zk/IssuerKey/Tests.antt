-- ===== src/Zk/IssuerKey/Tests.antt =====
-- The key service at a storage of one record.
use aca_py_did_kanon.Prelude.{
  ℕ, ◌≡◌, refl, true, false, none, some, [], ◌∷◌, ◌++◌, bytes_eq, arith, replicate, All,
  All-replicate, Bytes, ok,
}
use aca_py_did_kanon.Prelude.Dict.{Dict, get, put}
use aca_py_did_kanon.Prelude.Hex.{codes, to_hex, hex_char, IsByte}
use aca_py_did_kanon.Prelude.Decimal.{from_dec, to_dec, dec_digits, from_dec_acc}
use aca_py_did_kanon.Storage.{Storage, Json, parsed, upsert, existing}
use aca_py_did_kanon.Storage.Memory.{by_id, by_id-StorageLaws, by_id-StorageFrame}
use aca_py_did_kanon.Contracts.Convert.{raw}
use aca_py_did_kanon.Zk.IssuerKey.{
  issuer_key_record_type, record_id, key_record, IssuerKey, KeyRecord, KeyWorld, load_record,
  read_raw, save_record, normalize_cred_def_id, provision_locked, provision_public_key,
}
use aca_py_did_kanon.Zk.IssuerKey.Ids.{normalize_forms}
use aca_py_did_kanon.Zk.IssuerKey.Callers.{
  Call, idle, waits, loads, saves, Services, new_services, setdefault, to_phase, answer, keep,
  update, ask, enter, generate, save, reuse, Reach, here, next,
}
use aca_py_did_kanon.Zk.IssuerKey.SingleKey.{one_key}
use aca_py_did_kanon.Zk.IssuerKey.SplitLock.{two_keys}
use aca_py_did_kanon.Zk.IssuerKey.Provision.{IsConsistent, provision_again}

abbrev b32 : Bytes
b32 = replicate 32 9

abbrev norm : Bytes
norm = codes "0x" ++ to_hex b32

b32-IsByte : All IsByte b32
b32-IsByte = All-replicate IsByte 32 9 (omega arith)

abbrev wallet : Storage (Json KeyRecord) (Dict (Json KeyRecord))
wallet = by_id (Json KeyRecord)

abbrev new_world : KeyWorld (Dict (Json KeyRecord))
new_world = record { provision_locks = []; public_cache = []; store = [] }

abbrev first_key : IssuerKey
first_key = record { private_key_hex = codes "0a"; a_x = 12; a_y = 345 }

abbrev other_key : IssuerKey
other_key = record { private_key_hex = codes "0b"; a_x = 6; a_y = 7 }

new_world-IsConsistent : IsConsistent wallet new_world
unfolding get
new_world-IsConsistent n p h = absurd (none_ne_some h)
  where
    none_ne_some : {q : ℕ × ℕ} → none ≡ some q → ⊥
    none_ne_some h = cc

abbrev provisioned : KeyWorld (Dict (Json KeyRecord))
provisioned = (provision_public_key wallet first_key (raw b32) new_world).1

provisions : provision_public_key wallet first_key (raw b32) new_world ≡ (ok (12, 345), provisioned)
unfolding provision_public_key normalize_cred_def_id provision_locked load_record read_raw
    save_record upsert existing get
provisions = refl

provision_again_example :
    IsConsistent wallet provisioned
    × (load_record wallet norm provisioned.store ≡ ok (some (12, 345)))
    × (provision_public_key wallet other_key (raw b32) provisioned ≡ (ok (12, 345), provisioned))
provision_again_example =
    provision_again wallet first_key other_key (raw b32) norm new_world provisioned (12, 345)
      (by_id-StorageLaws (Json KeyRecord)) (by_id-StorageFrame (Json KeyRecord))
      new_world-IsConsistent ((normalize_forms b32 b32-IsByte refl).0) provisions

-- Two services: the second caller waits while the first one saves its key, and then finds it.
abbrev call_0 : Call
call_0 = record { service = 0; norm = norm; lock = 0 }

abbrev call_1 : Call
call_1 = record { service = 1; norm = norm; lock = 0 }

abbrev after_save : Services (Dict (Json KeyRecord))
after_save =
    answer norm (12, 345)
      (keep 0 norm (12, 345)
        (to_phase 0 idle (record (new_services [] [] 0) {
          store = (record_id norm, parsed (key_record first_key)) ∷ [];
          locks = (norm, 0) ∷ [];
          made = 1;
          callers =
              update
                (update (update (update (λ i. idle) 0 (waits call_0)) 0 (loads call_0)) 1
                  (waits call_1))
                0 (saves call_0 first_key);
        })))

reaches_save : Reach wallet false (new_services [] [] 0) after_save
unfolding get put setdefault load_record read_raw upsert existing bytes_eq to_hex hex_char
reaches_save =
    next
      (next
        (next
          (next (next here (ask 0 0 norm refl refl refl))
            (enter 0 call_0 refl (λ j d h. ground arith) refl refl))
          (ask 1 1 norm refl refl refl))
        (generate 0 call_0 first_key refl refl refl))
      (save 0 call_0 first_key _ refl refl refl)

abbrev after_reuse : Services (Dict (Json KeyRecord))
after_reuse =
    answer norm (12, 345)
      (keep 1 norm (12, 345) (to_phase 1 idle (to_phase 1 (loads call_1) after_save)))

reaches_reuse : Reach wallet false (new_services [] [] 0) after_reuse
unfolding get put load_record read_raw bytes_eq record_id to_hex hex_char from_dec to_dec dec_digits
    from_dec_acc
reaches_reuse =
    next (next reaches_save (enter 1 call_1 refl (λ j d h. ground arith) refl refl))
      (reuse 1 call_1 (12, 345) refl refl refl)

one_key_example :
    (◌≡◌ {A = ℕ × ℕ} (12, 345) (12, 345))
    × (load_record wallet norm after_reuse.store ≡ ok (some (12, 345)))
one_key_example =
    one_key wallet [] [] 0 after_reuse norm (12, 345) (12, 345) 0 1
      (by_id-StorageLaws (Json KeyRecord)) (by_id-StorageFrame (Json KeyRecord)) reaches_reuse refl
      refl

saves_first :
    upsert wallet [] issuer_key_record_type (record_id norm) (parsed (key_record first_key))
    ≡ ok ((record_id norm, parsed (key_record first_key)) ∷ [])
unfolding upsert existing get put
saves_first = refl

saves_other :
    upsert wallet
      ((record_id norm, parsed (key_record first_key)) ∷ [])
      issuer_key_record_type
      (record_id norm)
      (parsed (key_record other_key))
    ≡ ok ((record_id norm, parsed (key_record other_key)) ∷ [])
unfolding upsert existing get put bytes_eq record_id to_hex hex_char
saves_other = refl

no_record : load_record wallet norm [] ≡ ok none
unfolding load_record read_raw get
no_record = refl

two_keys_example :
    (a : Services (Dict (Json KeyRecord))) × Reach wallet true (new_services [] [] 0) a
    × (a.answers ≡ (norm, (6, 7)) ∷ (norm, (12, 345)) ∷ [])
    × (load_record wallet norm a.store ≡ ok (some (6, 7)))
two_keys_example =
    two_keys wallet [] ((record_id norm, parsed (key_record first_key)) ∷ [])
      ((record_id norm, parsed (key_record other_key)) ∷ []) norm first_key other_key no_record
      saves_first saves_other (by_id-StorageLaws (Json KeyRecord))
