-- ===== src/Zk/IssuerKey/SingleKey.antt =====
-- zk/zk_issuer_key.py: one key for each credDef, however the calls interleave.
use aca_py_did_kanon.Prelude.{
  ℕ, zero, suc, get_elem?, ◌≡◌, ◌≢◌, sym, ap, ◌∙◌, subst, true, false, Bool-cases, ◌⊎◌, inl, inr,
  arith, none, some, List, [], ◌∷◌, ◌==◌, Bytes, bytes_eq_iff, ok, All, Option-cases, ok_inj,
}
use aca_py_did_kanon.Prelude.Dict.{Dict, get, put, get-put}
use aca_py_did_kanon.Storage.{
  Storage, StorageLaws, StorageFrame, Json, parsed, upsert, get_record-upsert,
  get_record-upsert_other,
}
use aca_py_did_kanon.Zk.IssuerKey.{
  issuer_key_record_type, record_id, IssuerKey, KeyRecord, key_record, load_record,
}
use aca_py_did_kanon.Zk.IssuerKey.Ids.{record_id_inj}
use aca_py_did_kanon.Zk.IssuerKey.Provision.{load_record-cong, load_record-HoldsKey}
use aca_py_did_kanon.Zk.IssuerKey.Callers.{
  Call, Phase, idle, waits, loads, saves, call_of, holder, Services, new_services, setdefault,
  to_phase, answer, keep, update, Step, hit, load, ask, find, enter, reuse, generate, save, fail,
  drop, Reach, here, next,
}

some_inj {ℓ} : {A : Type ℓ} {a b : A} → some a ≡ some b → a ≡ b
some_inj h = cc

All-get_elem? {ℓ κ} :
    {A : Type ℓ} (P : A → Type κ) (xs : List A) (i : ℕ) (x : A)
    → All P xs
    → get_elem? xs i ≡ some x
    → P x
All-get_elem? P [] i x all h = cc
All-get_elem? P (y ∷ xs) zero x all h = subst P (some_inj h) all.0
All-get_elem? P (y ∷ xs) (suc i) x all h = All-get_elem? P xs i x all.1 h

holder-call_of : (p : Phase) (c : Call) → holder p ≡ some c → call_of p ≡ some c
holder-call_of idle c h = h
holder-call_of (waits d) c h = cc
holder-call_of (loads d) c h = h
holder-call_of (saves d key) c h = h

module _ {S : Type 0} (st : Storage (Json KeyRecord) S) where
  -- The storage has this pair for the credDef.
  abbrev Stored : S → Bytes → ℕ × ℕ → Type 0
  Stored s norm pair = load_record st norm s ≡ ok (some pair)

  abbrev IsStored : S → Bytes × (ℕ × ℕ) → Type 0
  IsStored s entry = Stored s entry.0 entry.1

  record Inv (a : Services S) : Type 0 where
    answered : All (IsStored a.store) a.answers
    cached : (k : ℕ) (n : Bytes) (p : ℕ × ℕ) → get n (a.caches k) ≡ some p → Stored a.store n p
    absent :
        (j : ℕ) (c : Call) (key : IssuerKey)
        → a.callers j ≡ saves c key
        → load_record st c.norm a.store ≡ ok none
    sole :
        (i j : ℕ) (c d : Call)
        → holder (a.callers i) ≡ some c
        → holder (a.callers j) ≡ some d
        → c.norm ≡ d.norm
        → i ≡ j
    locked : (j : ℕ) (c : Call) → call_of (a.callers j) ≡ some c → get c.norm a.locks ≡ some c.lock

  module _ {a : Services S} (inv : Inv a) where
    open inv use {answered, cached, absent, sole, locked}

    answer-Inv : (n : Bytes) (p : ℕ × ℕ) → Stored a.store n p → Inv (answer n p a)
    answer-Inv n p h = record {
      answered = (h, answered);
      cached = cached;
      absent = absent;
      sole = sole;
      locked = locked;
    }

    cached-keep :
        (k : ℕ) (n : Bytes) (p : ℕ × ℕ)
        → Stored a.store n p
        → (m : ℕ) (n' : Bytes) (p' : ℕ × ℕ)
        → get n' (update a.caches k (put n p (a.caches k)) m) ≡ some p'
        → Stored a.store n' p'
    cached-keep k n p h m n' p' e =
        ground (arith, get-put n n' p (a.caches k), bytes_eq_iff n n', cached m n' p')

    keep-Inv : (k : ℕ) (n : Bytes) (p : ℕ × ℕ) → Stored a.store n p → Inv (keep k n p a)
    keep-Inv k n p h = record {
      answered = answered;
      cached = cached-keep k n p h;
      absent = absent;
      sole = sole;
      locked = locked;
    }

    -- A caller that leaves.
    idle-Inv : (i : ℕ) → Inv (to_phase i idle a)
    idle-Inv i = record {
      answered = answered;
      cached = cached;
      absent = λ j c key e. ground (arith, absent j c key);
      sole = λ j k c d e f g. ground (arith, sole j k c d);
      locked = λ j c e. ground (arith, locked j c);
    }

    -- The lock that a call gets is in the table, and the locks there stay.
    setdefault-keeps :
        (n m : Bytes) (l : ℕ) → get m a.locks ≡ some l → get m (setdefault n a).1.locks ≡ some l
    unfolding setdefault
    setdefault-keeps n m l h = ground (arith, get-put n m a.made a.locks, bytes_eq_iff n m)

    setdefault-has : (n : Bytes) → get n (setdefault n a).1.locks ≡ some (setdefault n a).0
    unfolding setdefault
    setdefault-has n = ground (arith, get-put n n a.made a.locks, bytes_eq_iff n n)

    ask-Inv :
        (i k : ℕ) (n : Bytes)
        → a.callers i ≡ idle
        → Inv (
            to_phase i
              (waits (record { service = k; norm = n; lock = (setdefault n a).0 }))
              (setdefault n a).1)
    unfolding setdefault
    ask-Inv i k n e = elim (Option-cases (get n a.locks)) [
      | inr (l, there) ↦
          rw (there, setdefault)
            record {
              answered = answered;
              cached = cached;
              absent = λ j c key f. ground (arith, absent j c key);
              sole = λ j m c d f g h. ground (arith, sole j m c d);
              locked = λ j c f. ground (arith, locked j c);
            }
      | inl gone ↦
          rw (gone, setdefault)
            record {
              answered = answered;
              cached = cached;
              absent = λ j c key f. ground (arith, absent j c key);
              sole = λ j m c d f g h. ground (arith, sole j m c d);
              locked = λ j c f.
                  ground
                    (arith, locked j c, get-put n c.norm a.made a.locks, bytes_eq_iff n c.norm);
            }
    ]

    enter-Inv :
        (i : ℕ) (c : Call)
        → a.callers i ≡ waits c
        → ((j : ℕ) (d : Call) → holder (a.callers j) ≡ some d → d.lock ≢ c.lock)
        → Inv (to_phase i (loads c) a)
    enter-Inv i c e free = record {
      answered = answered;
      cached = cached;
      absent = λ j d key f. ground (arith, absent j d key);
      sole = alone;
      locked = λ j d f. ground (arith, locked i c, locked j d);
    }
      where
        alone :
            (j k : ℕ) (d d' : Call)
            → holder (update a.callers i (loads c) j) ≡ some d
            → holder (update a.callers i (loads c) k) ≡ some d'
            → d.norm ≡ d'.norm
            → j ≡ k
        alone j k d d' f g same = ground (
          arith,
          sole j k d d',
          locked i c,
          holder-call_of (a.callers j) d,
          holder-call_of (a.callers k) d',
          locked j d,
          locked k d',
          free j d,
          free k d',
        )

    generate-Inv :
        (i : ℕ) (c : Call) (key : IssuerKey)
        → a.callers i ≡ loads c
        → load_record st c.norm a.store ≡ ok none
        → Inv (to_phase i (saves c key) a)
    generate-Inv i c key e none_yet = record {
      answered = answered;
      cached = cached;
      absent = λ j d k f. ground (arith, absent j d k);
      sole = λ j k d d' f g h. ground (arith, sole j k d d', sole i k c d', sole j i d c);
      locked = λ j d f. ground (arith, locked i c, locked j d);
    }

    module _ (laws : StorageLaws st) (frame : StorageFrame st) (i : ℕ) (c : Call) (key : IssuerKey)
        (s : S) (saving : a.callers i ≡ saves c key)
        (saved : upsert st a.store issuer_key_record_type
            (record_id c.norm)
            (parsed (key_record key))
          ≡ ok s) where
      save_self : Stored s c.norm (key.a_x, key.a_y)
      save_self = load_record-HoldsKey st c.norm s key (
          get_record-upsert st a.store s issuer_key_record_type (record_id c.norm)
            (parsed (key_record key)) laws saved)

      save_other : (n : Bytes) → c.norm ≢ n → load_record st n s ≡ load_record st n a.store
      save_other n ne = load_record-cong st n a.store s (
          get_record-upsert_other st a.store s issuer_key_record_type (record_id c.norm)
            (record_id n) (parsed (key_record key)) frame saved
            (λ e. ne (record_id_inj c.norm n e)))

      -- What was stored is for another credDef.
      save-Stored : (n : Bytes) (p : ℕ × ℕ) → Stored a.store n p → Stored s n p
      save-Stored n p h =
          save_other n (λ same.
            let e : ok none ≡ ok (some p) =
              sym (absent i c key saving) ∙ ap (λ m. load_record st m a.store) same ∙ h in
            cc)
          ∙ h

      save-All :
          (entries : List (Bytes × (ℕ × ℕ)))
          → All (IsStored a.store) entries
          → All (IsStored s) entries
      save-All [] all = tt
      save-All ((n, p) ∷ entries) all = (save-Stored n p all.0, save-All entries all.1)

      save-Inv : Inv (to_phase i idle (record a { store = s }))
      save-Inv = record {
        answered = save-All a.answers answered;
        cached = λ k n p h. save-Stored n p (cached k n p h);
        absent = λ j d k f. still_absent j d k f (Bool-cases (i == j));
        sole = λ j k d d' f g h. ground (arith, sole j k d d');
        locked = λ j d f. ground (arith, locked j d);
      }
        where
          still_absent :
              (j : ℕ) (d : Call) (k : IssuerKey)
              → update a.callers i idle j ≡ saves d k
              → (i == j ≡ true) ⊎ (i == j ≡ false)
              → load_record st d.norm s ≡ ok none
          still_absent j d k f (inl same) = let e : idle ≡ saves d k = rw same at f in cc
          still_absent j d k f (inr other) =
              let e : a.callers j ≡ saves d k = rw other at f in
              save_other d.norm (λ same. ground (arith, sole i j c d)) ∙ absent j d k e

  Step-Inv :
      {a b : Services S} → StorageLaws st → StorageFrame st → Step st false a b → Inv a → Inv b
  Step-Inv {a} laws frame (hit k n p h e) inv =
      subst Inv (sym e) (answer-Inv inv n p (inv.cached k n p h))
  Step-Inv {a} laws frame (load k n p h e) inv =
      subst Inv (sym e) (answer-Inv (keep-Inv inv k n p h) n p h)
  Step-Inv {a} laws frame (ask i k n h gone e) inv = subst Inv (sym e) (ask-Inv inv i k n h)
  Step-Inv {a} laws frame (find i c p h free there e) inv =
      subst Inv (sym e) (answer-Inv (idle-Inv inv i) c.norm p (inv.cached c.service c.norm p there))
  Step-Inv {a} laws frame (enter i c h free gone e) inv =
      subst Inv (sym e) (enter-Inv inv i c h free)
  Step-Inv {a} laws frame (reuse i c p h found e) inv =
      subst Inv (sym e)
        (answer-Inv (keep-Inv (idle-Inv inv i) c.service c.norm p found) c.norm p found)
  Step-Inv {a} laws frame (generate i c key h none_yet e) inv =
      subst Inv (sym e) (generate-Inv inv i c key h none_yet)
  Step-Inv {a} laws frame (save i c key s h saved e) inv =
      let kept = save_self inv laws frame i c key s h saved in
      subst Inv (sym e) (
        answer-Inv
          (keep-Inv (save-Inv inv laws frame i c key s h saved) c.service c.norm (key.a_x, key.a_y)
            kept)
          c.norm (key.a_x, key.a_y) kept)
  Step-Inv {a} laws frame (fail i c h e) inv = subst Inv (sym e) (idle-Inv inv i)
  Step-Inv {a} laws frame (drop k n never e) inv = absurd (cc)

  Reach-Inv :
      {a b : Services S} → StorageLaws st → StorageFrame st → Reach st false a b → Inv a → Inv b
  Reach-Inv laws frame here inv = inv
  Reach-Inv laws frame (next r step) inv = Step-Inv laws frame step (Reach-Inv laws frame r inv)

  new_services-Inv : (s : S) (locks : Dict ℕ) (made : ℕ) → Inv (new_services s locks made)
  unfolding get
  new_services-Inv s locks made = record {
    answered = tt;
    cached = λ k n p e. let none_is : none ≡ some p = e in cc;
    absent = λ j c key e. let idle_is : idle ≡ saves c key = e in cc;
    sole = λ i j c d e f g. let none_is : none ≡ some c = e in cc;
    locked = λ j c e. let none_is : none ≡ some c = e in cc;
  }

  -- Services with empty caches at one wallet and one table of locks, and their calls of
  -- `provision_public_key` and `load_public_key` in any order, without `invalidate`: two answers for one
  -- credDef are the same pair, and the wallet holds it. The storage reads back what is written.
  pub one_key :
      (s : S) (locks : Dict ℕ) (made : ℕ) (a : Services S) (norm : Bytes) (p q : ℕ × ℕ) (i j : ℕ)
      → StorageLaws st
      → StorageFrame st
      → Reach st false (new_services s locks made) a
      → get_elem? a.answers i ≡ some (norm, p)
      → get_elem? a.answers j ≡ some (norm, q)
      → (p ≡ q) × (load_record st norm a.store ≡ ok (some p))
  one_key s locks made a norm p q i j laws frame r ei ej =
      let inv = Reach-Inv laws frame r (new_services-Inv s locks made) in
      let held = All-get_elem? (IsStored a.store) a.answers i (norm, p) inv.answered ei in
      let held' = All-get_elem? (IsStored a.store) a.answers j (norm, q) inv.answered ej in
      (some_inj (ok_inj (sym held ∙ held')), held)
