-- ===== src/Contracts/Pool/Interleaved.antt =====
-- Callers of the pool in any order on one event loop. A caller of `for_network_async` that misses on
-- its first look waits for the lock; what runs under the lock, and the whole of `for_network`, has no
-- await inside and is one step. What web3 answers may differ from step to step.
use mathlib.Core.List.{◌++◌}
use aca_py_did_kanon.Prelude.{
  ◌≡◌, refl, ap, sym, ◌∙◌, subst, inl, inr, Bool-cases, none, some, Option-cases, List, [], ◌∷◌,
  if◌then◌else◌, Bytes, bytes_eq, bytes_eq→eq, Result, ok, err, Result-cases, All, ok_inj,
  err_ne_ok,
}
use aca_py_did_kanon.Prelude.Dict.{get, get-put, get-put_self}
use aca_py_did_kanon.Config.{KanonNetwork}
use aca_py_did_kanon.Contracts.Pool.Verified.{some_inj}
use aca_py_did_kanon.Contracts.Pool.{
  Provider, KanonRegistries, Cache, new_registries, keep_built, get_or_build,
}

-- The cache, the networks that callers wait for, and what was returned to whom asked for a network.
pub record PoolState : Type 0 where
  pub cache : Cache
  pub waiting : List KanonNetwork
  pub answers : List (Bytes × KanonRegistries)

abbrev pub log :
    Bytes → Result KanonRegistries → List (Bytes × KanonRegistries) → List (Bytes × KanonRegistries)
log name (ok reg) answers = (name, reg) ∷ answers
log name (err e) answers = answers

pub data Step (s t : PoolState) : Type 0 where
  -- The first look of `for_network_async` finds the clients.
  hit :
      (net : KanonNetwork) (reg : KanonRegistries)
      → get net.name s.cache ≡ some reg
      → t ≡ record s { answers = (net.name, reg) ∷ s.answers }
      → Step s t
  -- It does not, and the caller waits for the lock.
  miss :
      (net : KanonNetwork)
      → get net.name s.cache ≡ none
      → t ≡ record s { waiting = net ∷ s.waiting }
      → Step s t
  -- One of the waiting callers has the lock.
  locked :
      (w3 : Provider) (net : KanonNetwork) (before later : List KanonNetwork)
      → s.waiting ≡ before ++ net ∷ later
      → t ≡ record {
        cache = (get_or_build w3 net s.cache).1;
        waiting = before ++ later;
        answers = log net.name (get_or_build w3 net s.cache).0 s.answers;
      }
      → Step s t
  -- A call of `for_network`.
  sync :
      (w3 : Provider) (net : KanonNetwork)
      → t ≡ record s {
        cache = (get_or_build w3 net s.cache).1;
        answers = log net.name (get_or_build w3 net s.cache).0 s.answers;
      }
      → Step s t

pub data Reach (s : PoolState) : PoolState → Type 0 where
  here : Reach s s
  next : {t u : PoolState} → Reach s t → Step t u → Reach s u

-- Every answer is what the cache has for that network.
abbrev pub IsCached : Cache → Bytes × KanonRegistries → Type 0
IsCached cache answer = get answer.0 cache ≡ some answer.1

abbrev pub AllCached : PoolState → Type 0
AllCached s = All (IsCached s.cache) s.answers

-- One call that looks and builds keeps each entry, and what it returns is then in the cache.
get-get_or_build :
    (w3 : Provider) (net : KanonNetwork) (cache : Cache) (k : Bytes) (reg : KanonRegistries)
    → get k cache ≡ some reg
    → get k (get_or_build w3 net cache).1 ≡ some reg
unfolding get_or_build keep_built
get-get_or_build w3 net cache k reg h = elim (Option-cases (get net.name cache)) [
  | inr (old, there) ↦ rw (there, get_or_build) h
  | inl gone ↦ elim (Result-cases (new_registries w3 net)) [
    | inr (why, e) ↦ rw (gone, e, get_or_build) h
    | inl (new, e) ↦ rw (gone, e, get_or_build) (get-put net.name k new cache ∙ kept new gone)
  ]
]
  where
    kept :
        (new : KanonRegistries)
        → get net.name cache ≡ none
        → (if bytes_eq net.name k then some new else get k cache) ≡ some reg
    kept new gone = elim (Bool-cases (bytes_eq net.name k)) [
      | inr other ↦ rw other h
      | inl same ↦ cc (sym gone ∙ ap (λ j. get j cache) (bytes_eq→eq net.name k same) ∙ h)
    ]

get_or_build-IsCached :
    (w3 : Provider) (net : KanonNetwork) (cache : Cache) (reg : KanonRegistries)
    → (get_or_build w3 net cache).0 ≡ ok reg
    → get net.name (get_or_build w3 net cache).1 ≡ some reg
unfolding get_or_build keep_built
get_or_build-IsCached w3 net cache reg h = elim (Option-cases (get net.name cache)) [
  | inr (old, there) ↦
      let same : ok old ≡ ok reg = sym (rw (there, get_or_build) refl) ∙ h in
      rw (there, get_or_build) (there ∙ ap some (ok_inj same))
  | inl gone ↦ elim (Result-cases (new_registries w3 net)) [
    | inr (why, e) ↦
        let same : err why ≡ ok reg = sym (rw (gone, e, get_or_build) refl) ∙ h in
        absurd (err_ne_ok same)
    | inl (new, e) ↦
        let same : ok new ≡ ok reg = sym (rw (gone, e, get_or_build) refl) ∙ h in
        rw (gone, e, get_or_build) (get-put_self net.name new cache ∙ ap some (ok_inj same))
  ]
]

-- The answers so far stay cached, whatever is built.
kept_answers :
    (w3 : Provider) (net : KanonNetwork) (cache : Cache) (answers : List (Bytes × KanonRegistries))
    → All (IsCached cache) answers
    → All (IsCached (get_or_build w3 net cache).1) answers
kept_answers w3 net cache [] all = tt
kept_answers w3 net cache ((k, reg) ∷ answers) all =
    (get-get_or_build w3 net cache k reg all.0, kept_answers w3 net cache answers all.1)

logged_answers :
    (w3 : Provider) (net : KanonNetwork) (cache : Cache) (answers : List (Bytes × KanonRegistries))
    → All (IsCached cache) answers
    → All
        (IsCached (get_or_build w3 net cache).1)
        (log net.name (get_or_build w3 net cache).0 answers)
logged_answers w3 net cache answers all = elim (Result-cases (get_or_build w3 net cache).0) [
  | inl (reg, e) ↦
      subst (λ r. All (IsCached (get_or_build w3 net cache).1) (log net.name r answers)) (sym e)
        (get_or_build-IsCached w3 net cache reg e, kept_answers w3 net cache answers all)
  | inr (why, e) ↦
      subst (λ r. All (IsCached (get_or_build w3 net cache).1) (log net.name r answers)) (sym e)
        (kept_answers w3 net cache answers all)
]

Step-AllCached : {s t : PoolState} → Step s t → AllCached s → AllCached t
Step-AllCached {s} (hit net reg there e) all = subst AllCached (sym e) (there, all)
Step-AllCached {s} (miss net gone e) all = subst AllCached (sym e) all
Step-AllCached {s} (locked w3 net before later w e) all =
    subst AllCached (sym e) (logged_answers w3 net s.cache s.answers all)
Step-AllCached {s} (sync w3 net e) all =
    subst AllCached (sym e) (logged_answers w3 net s.cache s.answers all)

Reach-AllCached : {s t : PoolState} → Reach s t → AllCached s → AllCached t
Reach-AllCached here all = all
Reach-AllCached (next r step) all = Step-AllCached step (Reach-AllCached r all)

-- Where an answer stands among the answers.
pub data Answered (name : Bytes) (reg : KanonRegistries)
    : List (Bytes × KanonRegistries) → Type 0 where
  first : (rest : List (Bytes × KanonRegistries)) → Answered name reg ((name, reg) ∷ rest)
  further :
      (e : Bytes × KanonRegistries) {rest : List (Bytes × KanonRegistries)}
      → Answered name reg rest
      → Answered name reg (e ∷ rest)

Answered-cached :
    {name : Bytes} {reg : KanonRegistries} {answers : List (Bytes × KanonRegistries)}
    (cache : Cache)
    → Answered name reg answers
    → All (IsCached cache) answers
    → get name cache ≡ some reg
Answered-cached cache (first rest) all = all.0
Answered-cached cache (further e there) all = Answered-cached cache there all.1

-- From a pool that has answered nobody, in every order of calls of `for_network` and
-- `for_network_async` and whatever web3 answers to each, two callers that got clients for networks of
-- one name got the same clients.
pub one_set_of_clients :
    (cache : Cache) (s : PoolState) (name : Bytes) (a b : KanonRegistries)
    → Reach (record { cache = cache; waiting = []; answers = [] }) s
    → Answered name a s.answers
    → Answered name b s.answers
    → a ≡ b
one_set_of_clients cache s name a b r first_answer second_answer =
    let all = Reach-AllCached r tt in
    some_inj
      (sym (Answered-cached s.cache first_answer all) ∙ Answered-cached s.cache second_answer all)
