-- ===== src/Zk/Issuer/Synced.antt =====
-- _replay_from_chain of zk/zk_issuer.py over the logs of the contract: step by step it gives what one
-- replay of all logs gives, and what it misses between its two readings of the block number.
mod Tests
use aca_py_did_kanon.Prelude.{
  ℕ, ◌+◌, ◌≤◌, ◌<◌, ◌≡◌, refl, sym, ap, ◌∙◌, Bool, Bool-cases, inl, inr, ◌⊎◌, arith, none, some,
  Option, ltb, leb, ◌&&◌, ◌==◌, List, [], ◌∷◌, ◌++◌, map, length, if◌then◌else◌, Bytes, Result, ok,
  ◌>>=◌,
}
use aca_py_did_kanon.Prelude.Dict.{Dict, get}
use aca_py_did_kanon.Contracts.Convert.{raw, to_bytes32}
use aca_py_did_kanon.Contracts.MerkleState.{Log, LeafEvent, get_leaf_events, scan, transported}
use aca_py_did_kanon.Zk.Issuer.State.{IssuerState, fresh, replay}
use aca_py_did_kanon.Zk.Issuer.Sync.{Chain, replay_from_chain}
use aca_py_did_kanon.Zk.Issuer.Replay.{last_word, get-replay, last_word-append, last_word_idem}
use aca_py_did_kanon.Zk.Issuer.History.{
  History, select, scanning, events_between, events_between-split,
}

-- The active set is what all events up to the watermark make of an empty one, leaf by leaf.
abbrev pub IsSynced : History → IssuerState → Type 0
IsSynced h s =
    (k : Bytes) → get k s.active ≡ get k (replay [] (events_between h 0 s.last_synced_block))

replay_from_chain-scanning :
    (chain : Chain) (h : History) (cd : Bytes) (tip latest : ℕ) (s : IssuerState)
    → length cd ≡ 32
    → replay_from_chain (scanning chain h tip latest) cd s
      ≡ ok (record {
        active = replay s.active (events_between h s.last_synced_block tip);
        last_synced_block = latest;
      })
unfolding replay_from_chain get_leaf_events scan transported to_bytes32 events_between
replay_from_chain-scanning chain h cd tip latest s len = rw (len, to_bytes32) refl

sync-IsSynced :
    (chain : Chain) (h : History) (cd : Bytes) (tip : ℕ) (s : IssuerState)
    → length cd ≡ 32
    → s.last_synced_block ≤ tip
    → IsSynced h s
    → (s' : IssuerState) × (replay_from_chain (scanning chain h tip tip) cd s ≡ ok s')
      × (s'.last_synced_block ≡ tip)
      × IsSynced h s'
unfolding get
sync-IsSynced chain h cd tip s len le synced =
    let (early, at_w, late, before, again, whole) =
      events_between-split h s.last_synced_block tip le in
    (
      record {
        active = replay s.active (events_between h s.last_synced_block tip);
        last_synced_block = tip;
      },
      replay_from_chain-scanning chain h cd tip tip s len,
      refl,
      λ k.
          let said : get k s.active ≡ last_word k at_w (last_word k early none) =
            synced k
            ∙ get-replay k (events_between h 0 s.last_synced_block) []
            ∙ ap (λ es. last_word k es (get k [])) before
            ∙ last_word-append k early at_w (get k []) in
          get-replay k (events_between h s.last_synced_block tip) s.active
          ∙ ap (λ es. last_word k es (get k s.active)) again
          ∙ last_word-append k at_w late (get k s.active)
          ∙ ap (λ b. last_word k late (last_word k at_w b)) said
          ∙ ap (last_word k late) (last_word_idem k at_w (last_word k early none))
          ∙ sym (
              get-replay k (events_between h 0 tip) []
              ∙ ap (λ es. last_word k es (get k [])) whole
              ∙ last_word-append k early (at_w ++ late) (get k [])
              ∙ last_word-append k at_w late (last_word k early (get k []))),
    )

-- Synchronising at one block after the other, no block mined between the two readings of each.
unfoldable pub sync_all : Chain → History → Bytes → List ℕ → IssuerState → Result IssuerState
unfolding replay_from_chain
sync_all chain h cd [] s = ok s
sync_all chain h cd (tip ∷ tips) s = do
  next ← replay_from_chain (scanning chain h tip tip) cd s
  sync_all chain h cd tips next

abbrev pub last_of : ℕ → List ℕ → ℕ
last_of tip [] = tip
last_of tip (t ∷ tips) = last_of t tips

-- No block is below the one before it.
abbrev pub IsRising : ℕ → List ℕ → Type 0
IsRising tip [] = Unit
IsRising tip (t ∷ tips) = (tip ≤ t) × IsRising t tips

sync_all-IsSynced :
    (chain : Chain) (h : History) (cd : Bytes) (tip : ℕ) (tips : List ℕ) (s : IssuerState)
    → length cd ≡ 32
    → s.last_synced_block ≡ tip
    → IsRising tip tips
    → IsSynced h s
    → (s' : IssuerState) × (sync_all chain h cd tips s ≡ ok s')
      × (s'.last_synced_block ≡ last_of tip tips)
      × IsSynced h s'
unfolding sync_all
sync_all-IsSynced chain h cd tip [] s len at rising synced = (s, refl, at, synced)
sync_all-IsSynced chain h cd tip (t ∷ tips) s len at rising synced =
    let (next, e, there, now_synced) =
      sync-IsSynced chain h cd t s len (omega (arith, rising.0)) synced in
    let (s', e', last, all) =
      sync_all-IsSynced chain h cd t tips next len there rising.1 now_synced in
    (s', ap (λ r. r >>= sync_all chain h cd tips) e ∙ e', last, all)

-- An issuer that starts afresh and synchronises at blocks none of which is below the one before, over
-- logs that stay as they are, has at the end the same leaves, with the same companions, and the same
-- watermark as one that starts afresh and synchronises once at the last of the blocks; both return.
-- No block is mined between the two readings of the block number in one synchronisation.
pub sync_all-eq-once :
    (chain : Chain) (h : History) (cd : Bytes) (tip : ℕ) (tips : List ℕ)
    → length cd ≡ 32
    → IsRising tip tips
    → (s : IssuerState) × (once : IssuerState) × (sync_all chain h cd (tip ∷ tips) fresh ≡ ok s)
      × (replay_from_chain (scanning chain h (last_of tip tips) (last_of tip tips)) cd fresh
          ≡ ok once)
      × (s.last_synced_block ≡ once.last_synced_block)
      × ((k : Bytes) → get k s.active ≡ get k once.active)
unfolding sync_all
sync_all-eq-once chain h cd tip tips len rising =
    let next : IssuerState = record {
      active = replay [] (events_between h 0 tip);
      last_synced_block = tip;
    } in
    let (s, e, last, synced) =
      sync_all-IsSynced chain h cd tip tips next len refl rising (λ k. refl) in
    (
      s,
      record {
        active = replay [] (events_between h 0 (last_of tip tips));
        last_synced_block = last_of tip tips;
      },
      ap (λ r. r >>= sync_all chain h cd tips)
            (replay_from_chain-scanning chain h cd tip tip fresh len)
          ∙ e,
      replay_from_chain-scanning chain h cd (last_of tip tips) (last_of tip tips) fresh len,
      last,
      λ k. synced k ∙ ap (λ b. get k (replay [] (events_between h 0 b))) last,
    )

-- The logs without those of the blocks above `tip` and below `latest`.
unfoldable pub without_gap : ℕ → ℕ → List Log → List Log
without_gap tip latest [] = []
without_gap tip latest (log ∷ logs) =
    let rest = without_gap tip latest logs in
    if ltb tip log.block && ltb log.block latest then rest else log ∷ rest

select-without_gap :
    (tip latest a b : ℕ) (logs : List Log)
    → (b ≤ tip) ⊎ (latest ≤ a)
    → select a b (without_gap tip latest logs) ≡ select a b logs
unfolding select without_gap
select-without_gap tip latest a b [] outside = refl
select-without_gap tip latest a b (log ∷ logs) outside =
    ground (arith, select-without_gap tip latest a b logs outside)

abbrev pub gapless : ℕ → ℕ → History → History
gapless tip latest h = record {
  added = without_gap tip latest h.added;
  revoked = without_gap tip latest h.revoked;
}

events_between-gapless :
    (tip latest a b : ℕ) (h : History)
    → (b ≤ tip) ⊎ (latest ≤ a)
    → events_between (gapless tip latest h) a b ≡ events_between h a b
unfolding events_between
events_between-gapless tip latest a b h outside =
    rw
      (
        select-without_gap tip latest a b h.added outside,
        select-without_gap tip latest a b h.revoked outside,
      )
      refl

two_syncs :
    (chain : Chain) (h : History) (cd : Bytes) (tip latest tip' latest' : ℕ) (s : IssuerState)
    → length cd ≡ 32
    → (replay_from_chain (scanning chain h tip latest) cd s
        >>= replay_from_chain (scanning chain h tip' latest') cd)
      ≡ ok (record {
        active =
            replay
              (replay s.active (events_between h s.last_synced_block tip))
              (events_between h latest tip');
        last_synced_block = latest';
      })
two_syncs chain h cd tip latest tip' latest' s len =
    ap (λ r. r >>= replay_from_chain (scanning chain h tip' latest') cd)
      (replay_from_chain-scanning chain h cd tip latest s len)
    ∙ replay_from_chain-scanning chain h cd tip' latest' _ len

-- Where the scan goes up to one block and the reading after it gives a later one, what the logs have in
-- the blocks between has no influence on this synchronisation or on the next: with these blocks empty
-- the state is the same.
pub skipped_blocks :
    (chain : Chain) (h : History) (cd : Bytes) (tip latest tip' latest' : ℕ) (s : IssuerState)
    → length cd ≡ 32
    → (replay_from_chain (scanning chain h tip latest) cd s
        >>= replay_from_chain (scanning chain h tip' latest') cd)
      ≡ (replay_from_chain (scanning chain (gapless tip latest h) tip latest) cd s
          >>= replay_from_chain (scanning chain (gapless tip latest h) tip' latest') cd)
skipped_blocks chain h cd tip latest tip' latest' s len =
    two_syncs chain h cd tip latest tip' latest' s len
    ∙ ap
        (λ (es : List LeafEvent × List LeafEvent).
          ok (record { active = replay (replay s.active es.0) es.1; last_synced_block = latest' }))
        {x = (events_between h s.last_synced_block tip, events_between h latest tip')}
        (λ i. (
          sym (events_between-gapless tip latest s.last_synced_block tip h (inl (omega arith))) i,
          sym (events_between-gapless tip latest latest tip' h (inr (omega arith))) i,
        ))
    ∙ sym (two_syncs chain (gapless tip latest h) cd tip latest tip' latest' s len)
