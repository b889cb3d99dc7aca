-- ===== src/Zk/IssuerKey.antt =====
-- zk/zk_issuer_key.py, `KanonZkIssuerKeyService`: the issuer key of each credDef. Calls run one after
-- the other, as the lock of `provision_public_key` has them. Key generation and restoration
-- (`eddsa.generate_issuer_key`, `eddsa.restore_issuer_key`) are arguments.
pub mod Ids
pub mod Provision
pub mod Callers
pub mod SingleKey
pub mod SplitLock
mod Tests
use aca_py_did_kanon.Prelude.{
  ℕ, ◌+◌, Bool, true, false, not, ◌||◌, ◌&&◌, leb, Option, none, some, List, [], ◌∷◌, ◌++◌, ◌==◌,
  if◌then◌else◌, length, drop, Bytes, bytes_eq, Error, Result, ok, err, value_error, key_error,
  type_error, issuer_key_error, storage_not_found,
}
use aca_py_did_kanon.Prelude.Exec.{Exec, pure, raise, lift, gets, modify, continue, ◌>>=◌, ◌>>◌}
use aca_py_did_kanon.Prelude.Dict.{Dict, get, put, pop}
use aca_py_did_kanon.Prelude.Hex.{codes, to_hex, lower, starts_with}
use aca_py_did_kanon.Prelude.Decimal.{to_dec, from_dec}
use aca_py_did_kanon.Storage.{Storage, Json, parsed, corrupt, upsert}
use aca_py_did_kanon.Contracts.Convert.{BytesLike, raw, text}

abbrev pub issuer_key_record_type : Bytes
issuer_key_record_type = codes "kanon/zk/issuer-key"

-- What `int(s, 16)` has read last, after the prefix.
pub data HexState : Type 0 where
  start digit underscore space : HexState

abbrev is_hex : ℕ → Bool
is_hex c = (leb b'0' c && leb c b'9') || ((leb b'a' c && leb c b'f') || (leb b'A' c && leb c b'F'))

abbrev is_ascii_space : ℕ → Bool
is_ascii_space c = c == 32 || (leb 9 c && leb c 13)

-- Whether one more character may follow, and the state after it.
unfoldable pub hex_step : HexState → ℕ → Option HexState
hex_step space c = if is_ascii_space c then some space else none
hex_step digit c =
    if is_hex c
    then some digit
    else if c == b'_'
    then some underscore
    else if is_ascii_space c
    then some space
    else none
hex_step start c = if is_hex c then some digit else if c == b'_' then some underscore else none
hex_step underscore c = if is_hex c then some digit else none

-- Whether `int("0x" + s, 16)` succeeds, on ASCII texts.
unfoldable pub is_hex_text : HexState → Bytes → Bool
is_hex_text digit [] = true
is_hex_text space [] = true
is_hex_text start [] = false
is_hex_text underscore [] = false
is_hex_text state (c ∷ cs) = elim (hex_step state c) [
  | none ↦ false
  | some next ↦ is_hex_text next cs
]

unfoldable pub with_0x : Bytes → Bytes
with_0x low = if starts_with (codes "0x") low then low else codes "0x" ++ low

-- The checks on the prefixed text.
unfoldable pub checked : Bytes → Result Bytes
checked s =
    if length s == 66
    then (if is_hex_text start (drop 2 s) then ok s else err value_error)
    else err value_error

-- `_normalize_cred_def_id`
unfoldable pub normalize_cred_def_id : BytesLike → Result Bytes
unfolding with_0x checked
normalize_cred_def_id (raw b) =
    if length b == 32 then ok (codes "0x" ++ to_hex b) else err value_error
normalize_cred_def_id (text t) = checked (with_0x (lower t))

unfoldable pub record_id : Bytes → Bytes
record_id norm = codes "kanon-zk-issuer-key:" ++ norm

pub record IssuerKey : Type 0 where
  pub private_key_hex : Bytes
  pub a_x : ℕ
  pub a_y : ℕ

-- The JSON object of a key; a missing entry is `none`.
pub record KeyRecord : Type 0 where
  pub private_key_hex : Option Bytes
  pub ax : Option Bytes
  pub ay : Option Bytes

-- The class's locks, the instance's cache and the wallet's storage.
pub record KeyWorld (S : Type 0) : Type 0 where
  pub provision_locks : List Bytes
  pub public_cache : Dict (ℕ × ℕ)
  pub store : S

-- `int(record[name])` under the `try`.
unfoldable pub int_entry : Option Bytes → Result ℕ
int_entry none = err issuer_key_error
int_entry (some t) = elim (from_dec t) [ ok n ↦ ok n | err e ↦ err issuer_key_error ]

unfoldable pub has_lock : List Bytes → Bytes → Bool
has_lock [] norm = false
has_lock (l ∷ locks) norm = bytes_eq l norm || has_lock locks norm

-- `_provision_locks.setdefault`, `_provision_locks.pop`
abbrev pub add_lock : {S : Type 0} → Bytes → KeyWorld S → KeyWorld S
add_lock norm world = record world {
  provision_locks =
      if has_lock world.provision_locks norm
      then world.provision_locks
      else norm ∷ world.provision_locks;
}

unfoldable pub without_lock : Bytes → List Bytes → List Bytes
without_lock norm [] = []
without_lock norm (l ∷ locks) =
    let rest = without_lock norm locks in if bytes_eq l norm then rest else l ∷ rest

abbrev pub cache_key : {S : Type 0} → Bytes → ℕ × ℕ → KeyWorld S → KeyWorld S
cache_key norm pair world = record world { public_cache = put norm pair world.public_cache }

-- The object that `_save_record` writes.
abbrev pub key_record : IssuerKey → KeyRecord
key_record key = record {
  private_key_hex = some key.private_key_hex;
  ax = some (to_dec key.a_x);
  ay = some (to_dec key.a_y);
}

module _ {S : Type 0} (st : Storage (Json KeyRecord) S) where
  -- `_read_raw`: a record that is not found is None, any other exception goes on.
  unfoldable pub read_raw : Bytes → S → Result (Option KeyRecord)
  read_raw norm s = elim (st.get_record s issuer_key_record_type (record_id norm)) [
    | ok (some (parsed r)) ↦ ok (some r)
    | ok (some corrupt) ↦ err value_error
    | ok none ↦ ok none
    | err storage_not_found ↦ ok none
    | err e ↦ err e
  ]

  -- `_load_record`
  unfoldable pub load_record : Bytes → S → Result (Option (ℕ × ℕ))
  unfolding read_raw int_entry
  load_record norm s = elim (read_raw norm s) [
    | err e ↦ err e
    | ok none ↦ ok none
    | ok (some r) ↦ elim (int_entry r.ax) [
      | err e ↦ err e
      | ok ax ↦ elim (int_entry r.ay) [ err e ↦ err e | ok ay ↦ ok (some (ax, ay)) ]
    ]
  ]

  -- `_load_record_private`
  unfoldable pub load_record_private : Bytes → S → Result (Option Bytes)
  unfolding read_raw
  load_record_private norm s = elim (read_raw norm s) [
    | err e ↦ err e
    | ok none ↦ ok none
    | ok (some r) ↦ elim r.private_key_hex [
      | none ↦ err issuer_key_error
      | some priv ↦ ok (some priv)
    ]
  ]

  -- `_save_record`
  unfoldable pub save_record : Bytes → IssuerKey → Exec (KeyWorld S) (Unit {0})
  save_record norm key world =
      elim (upsert st world.store issuer_key_record_type (record_id norm)
        (parsed (key_record key))) [
          | ok s ↦ (ok tt, record world { store = s })
          | err e ↦ (err e, world)
        ]

  -- What runs under the lock. `generated` is the key that `generate_issuer_key` would return.
  unfoldable pub provision_locked : IssuerKey → Bytes → Exec (KeyWorld S) (ℕ × ℕ)
  unfolding load_record save_record
  provision_locked generated norm world = elim (get norm world.public_cache) [
    | some pair ↦ (ok pair, world)
    | none ↦ elim (load_record norm world.store) [
      | err e ↦ (err e, world)
      | ok (some pair) ↦ (ok pair, cache_key norm pair world)
      | ok none ↦
          (do
            save_record norm generated
            modify (cache_key norm (generated.a_x, generated.a_y))
            pure (generated.a_x, generated.a_y))
            world
    ]
  ]

  unfoldable pub provision_public_key : IssuerKey → BytesLike → Exec (KeyWorld S) (ℕ × ℕ)
  unfolding provision_locked
  provision_public_key generated cred_def_id = do
    norm ← lift (normalize_cred_def_id cred_def_id)
    cached ← gets (λ world. get norm world.public_cache)
    elim cached [
      | some pair ↦ pure pair
      | none ↦ do modify (add_lock norm); provision_locked generated norm
    ]

  unfoldable pub load_public_key : BytesLike → Exec (KeyWorld S) (Option (ℕ × ℕ))
  unfolding load_record
  load_public_key cred_def_id = do
    norm ← lift (normalize_cred_def_id cred_def_id)
    cached ← gets (λ world. get norm world.public_cache)
    elim cached [
      | some pair ↦ pure (some pair)
      | none ↦ do
        found ← (λ world. (load_record norm world.store, world))
        elim found [
          | none ↦ pure none
          | some pair ↦ do modify (cache_key norm pair); pure (some pair)
        ]
    ]

  -- The key goes to `fn`; nothing of it stays in the service.
  unfoldable pub with_private_key :
      {T : Type 0}
      → (Bytes → Result IssuerKey)
      → BytesLike
      → (IssuerKey → Result T)
      → Exec (KeyWorld S) T
  unfolding load_record_private
  with_private_key restore cred_def_id fn = do
    norm ← lift (normalize_cred_def_id cred_def_id)
    priv ← (λ world. (load_record_private norm world.store, world))
    elim priv [
      | none ↦ raise issuer_key_error
      | some priv_hex ↦ do key ← lift (restore priv_hex); lift (fn key)
    ]

  unfoldable pub invalidate : BytesLike → Exec (KeyWorld S) (Unit {0})
  invalidate cred_def_id = do
    norm ← lift (normalize_cred_def_id cred_def_id)
    modify (λ world. record world {
      public_cache = pop norm world.public_cache;
      provision_locks = without_lock norm world.provision_locks;
    })
