-- ===== src/Zk/IssuerKey/Callers.antt =====
-- zk/zk_issuer_key.py: calls of `provision_public_key`, `load_public_key` and `invalidate` in any order on
-- one event loop, by services that have one wallet and the locks of the class in common. A caller waits
-- at the lock and at each session with the storage, where another may go on; the reads and writes of
-- one session are one step.
use aca_py_did_kanon.Prelude.{
  ℕ, suc, ◌≡◌, ◌≢◌, Bool, true, Option, none, some, List, [], ◌∷◌, ◌==◌, if◌then◌else◌, Bytes, ok,
}
use aca_py_did_kanon.Prelude.Dict.{Dict, get, put, pop}
use aca_py_did_kanon.Storage.{Storage, Json, parsed, upsert}
use aca_py_did_kanon.Zk.IssuerKey.{
  issuer_key_record_type, record_id, IssuerKey, KeyRecord, key_record, load_record,
}

abbrev pub update {ℓ} : {A : Type ℓ} → (ℕ → A) → ℕ → A → ℕ → A
update f i a j = if i == j then a else f j

-- A call of `provision_public_key`: its service, its credDef, and the lock object that it got.
pub record Call : Type 0 where
  pub service : ℕ
  pub norm : Bytes
  pub lock : ℕ

-- Where a caller is: outside, at `async with lock`, at `_load_record`, at `_save_record`.
pub data Phase : Type 0 where
  idle : Phase
  waits : Call → Phase
  loads : Call → Phase
  saves : Call → IssuerKey → Phase

abbrev pub call_of : Phase → Option Call
call_of idle = none
call_of (waits c) = some c
call_of (loads c) = some c
call_of (saves c key) = some c

-- The call that holds its lock.
abbrev pub holder : Phase → Option Call
holder idle = none
holder (waits c) = none
holder (loads c) = some c
holder (saves c key) = some c

-- The wallet, each service's cache, `_provision_locks` with the number of lock objects made, the
-- callers, and which pair was returned to whom asked for a credDef.
pub record Services (S : Type 0) : Type 0 where
  pub store : S
  pub caches : ℕ → Dict (ℕ × ℕ)
  pub locks : Dict ℕ
  pub made : ℕ
  pub callers : ℕ → Phase
  pub answers : List (Bytes × (ℕ × ℕ))

-- Services that were just made, at a wallet and a table of locks.
abbrev pub new_services : {S : Type 0} → S → Dict ℕ → ℕ → Services S
new_services store locks made = record {
  store = store;
  caches = λ k. [];
  locks = locks;
  made = made;
  callers = λ i. idle;
  answers = [];
}

module _ {S : Type 0} where
  -- `_provision_locks.setdefault(norm, asyncio.Lock())`
  unfoldable pub setdefault : Bytes → Services S → ℕ × Services S
  setdefault norm a = elim (get norm a.locks) [
    | some lock ↦ (lock, a)
    | none ↦ (a.made, record a { locks = put norm a.made a.locks; made = suc a.made })
  ]

  abbrev pub to_phase : ℕ → Phase → Services S → Services S
  to_phase i p a = record a { callers = update a.callers i p }

  abbrev pub answer : Bytes → ℕ × ℕ → Services S → Services S
  answer norm pair a = record a { answers = (norm, pair) ∷ a.answers }

  -- `self._public_cache[norm] = pair`, of one service.
  abbrev pub keep : ℕ → Bytes → ℕ × ℕ → Services S → Services S
  keep k norm pair a = record a { caches = update a.caches k (put norm pair (a.caches k)) }

-- `dropping` says whether `invalidate` is called at all.
module _ {S : Type 0} (st : Storage (Json KeyRecord) S) (dropping : Bool) where
  pub data Step (a b : Services S) : Type 0 where
    -- The first look of a call, of either method, finds the pair.
    hit :
        (k : ℕ) (norm : Bytes) (pair : ℕ × ℕ)
        → get norm (a.caches k) ≡ some pair
        → b ≡ answer norm pair a
        → Step a b
    -- `load_public_key` finds the record.
    load :
        (k : ℕ) (norm : Bytes) (pair : ℕ × ℕ)
        → load_record st norm a.store ≡ ok (some pair)
        → b ≡ answer norm pair (keep k norm pair a)
        → Step a b
    -- A call of `provision_public_key` goes for its lock.
    ask :
        (i k : ℕ) (norm : Bytes)
        → a.callers i ≡ idle
        → get norm (a.caches k) ≡ none
        → b
          ≡ to_phase i
              (waits (record { service = k; norm = norm; lock = (setdefault norm a).0 }))
              (setdefault norm a).1
        → Step a b
    -- It has the lock, and its second look finds the pair.
    find :
        (i : ℕ) (c : Call) (pair : ℕ × ℕ)
        → a.callers i ≡ waits c
        → ((j : ℕ) (d : Call) → holder (a.callers j) ≡ some d → d.lock ≢ c.lock)
        → get c.norm (a.caches c.service) ≡ some pair
        → b ≡ answer c.norm pair (to_phase i idle a)
        → Step a b
    -- It has the lock, and its second look does not.
    enter :
        (i : ℕ) (c : Call)
        → a.callers i ≡ waits c
        → ((j : ℕ) (d : Call) → holder (a.callers j) ≡ some d → d.lock ≢ c.lock)
        → get c.norm (a.caches c.service) ≡ none
        → b ≡ to_phase i (loads c) a
        → Step a b
    -- There is a record.
    reuse :
        (i : ℕ) (c : Call) (pair : ℕ × ℕ)
        → a.callers i ≡ loads c
        → load_record st c.norm a.store ≡ ok (some pair)
        → b ≡ answer c.norm pair (keep c.service c.norm pair (to_phase i idle a))
        → Step a b
    -- There is none, and a key is generated.
    generate :
        (i : ℕ) (c : Call) (key : IssuerKey)
        → a.callers i ≡ loads c
        → load_record st c.norm a.store ≡ ok none
        → b ≡ to_phase i (saves c key) a
        → Step a b
    -- The key is saved.
    save :
        (i : ℕ) (c : Call) (key : IssuerKey) (s : S)
        → a.callers i ≡ saves c key
        → upsert st a.store issuer_key_record_type (record_id c.norm) (parsed (key_record key))
          ≡ ok s
        → b
          ≡ answer c.norm
              (key.a_x, key.a_y)
              (keep c.service c.norm (key.a_x, key.a_y) (to_phase i idle (record a { store = s })))
        → Step a b
    -- Loading or saving raises, or the call is cancelled.
    fail : (i : ℕ) (c : Call) → call_of (a.callers i) ≡ some c → b ≡ to_phase i idle a → Step a b
    -- `invalidate`
    drop :
        (k : ℕ) (norm : Bytes)
        → dropping ≡ true
        → b ≡ record a {
          caches = update a.caches k (pop norm (a.caches k));
          locks = pop norm a.locks;
        }
        → Step a b

  pub data Reach (a : Services S) : Services S → Type 0 where
    here : Reach a a
    next : {b c : Services S} → Reach a b → Step b c → Reach a c

  pub Reach-trans : {a b c : Services S} → Reach a b → Reach b c → Reach a c
  Reach-trans r here = r
  Reach-trans r (next q step) = next (Reach-trans r q) step
