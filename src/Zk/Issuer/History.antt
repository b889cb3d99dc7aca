-- ===== src/Zk/Issuer/History.antt =====
-- The logs of the contract as _replay_from_chain of zk/zk_issuer.py sees them: a filter answers with the
-- entries whose blocks are in its range, both ends included.
use aca_py_did_kanon.Prelude.{
  ℕ, ◌+◌, ◌≤◌, ◌≡◌, refl, sym, ap, ◌∙◌, Bool, Bool-cases, inl, inr, arith, ltb, leb, ◌&&◌, List, [],
  ◌∷◌, ◌++◌, map, if◌then◌else◌, ok,
}
use aca_py_did_kanon.Contracts.MerkleState.{
  Log, LeafEvent, Kind, add, revoke, to_event, is_before, insert_event, sort_events,
}
use aca_py_did_kanon.Contracts.MerkleState.Events.{
  IsFirst, IsSorted, IsFirst-trans, sort_events-IsSorted,
}
use aca_py_did_kanon.Zk.Issuer.Sync.{Chain}

-- The entries of the two events, for one credDef.
pub record History : Type 0 where
  pub added : List Log
  pub revoked : List Log

unfoldable pub select : ℕ → ℕ → List Log → List Log
select a b [] = []
select a b (log ∷ logs) =
    let rest = select a b logs in if leb a log.block && leb log.block b then log ∷ rest else rest

-- A chain with these logs, where the scan reads the block number `tip`, and the next reading gives
-- `latest`.
abbrev pub scanning : Chain → History → ℕ → ℕ → Chain
scanning chain h tip latest = record chain {
  tip = ok tip;
  latest_block = ok latest;
  added = λ cd from_block to_block. ok (select from_block to_block h.added);
  revoked = λ cd from_block to_block. ok (select from_block to_block h.revoked);
}

-- Every event up to a block, in the order of the chain.
unfoldable pub events_between : History → ℕ → ℕ → List LeafEvent
events_between h a b =
    sort_events
      (map (to_event add) (select a b h.added) ++ map (to_event revoke) (select a b h.revoked))

-- The events of the blocks from `a` on and before `b`.
pick : ℕ → ℕ → List LeafEvent → List LeafEvent
pick a b [] = []
pick a b (e ∷ events) =
    let rest = pick a b events in if leb a e.block && ltb e.block b then e ∷ rest else rest

pick-append : (a b : ℕ) (xs ys : List LeafEvent) → pick a b (xs ++ ys) ≡ pick a b xs ++ pick a b ys
unfolding pick
pick-append a b [] ys = refl
pick-append a b (e ∷ xs) ys = ground (arith, pick-append a b xs ys)

map-select :
    (kind : Kind) (a b : ℕ) (logs : List Log)
    → map (to_event kind) (select a b logs) ≡ pick a (b + 1) (map (to_event kind) logs)
unfolding select pick to_event
map-select kind a b [] = refl
map-select kind a b (log ∷ logs) = ground (arith, map-select kind a b logs)

IsFirst-pick :
    (a b : ℕ) (e : LeafEvent) (events : List LeafEvent)
    → IsFirst e events
    → IsFirst e (pick a b events)
unfolding pick
IsFirst-pick a b e [] h = tt
IsFirst-pick a b e (f ∷ events) h = elim (Bool-cases (leb a f.block && ltb f.block b)) [
  | inl here ↦ rw (here, pick) (h.0, IsFirst-pick a b e events h.1)
  | inr gone ↦ rw (gone, pick) (IsFirst-pick a b e events h.1)
]

-- An event that is first goes to the front.
insert_event-first :
    (e : LeafEvent) (events : List LeafEvent)
    → IsFirst e events
    → insert_event e events ≡ e ∷ events
unfolding insert_event
insert_event-first e [] h = refl
insert_event-first e (f ∷ events) h = rw (h.0, insert_event) refl

abbrev is_in : ℕ → ℕ → LeafEvent → Bool
is_in a b e = leb a e.block && ltb e.block b

pick-insert_event :
    (a b : ℕ) (e : LeafEvent) (events : List LeafEvent)
    → IsSorted events
    → pick a b (insert_event e events)
      ≡ (if is_in a b e then insert_event e (pick a b events) else pick a b events)
unfolding pick insert_event
pick-insert_event a b e [] s = refl
pick-insert_event a b e (f ∷ events) s = elim (Bool-cases (is_before f e)) [
  | inl before ↦ ground (arith, pick-insert_event a b e events s.1)
  | inr after ↦
      let front =
        insert_event-first e (pick a b events)
          (IsFirst-pick a b e events (IsFirst-trans e f events after s.0)) in
      ground arith
]

pick-sort_events :
    (a b : ℕ) (events : List LeafEvent)
    → pick a b (sort_events events) ≡ sort_events (pick a b events)
unfolding sort_events pick
pick-sort_events a b [] = refl
pick-sort_events a b (e ∷ events) = ground (
  arith,
  pick-insert_event a b e (sort_events events) (sort_events-IsSorted events),
  pick-sort_events a b events,
)

-- Of sorted events with the first in a block `w` or later, none is before `w`.
pick-late :
    (a b w : ℕ) (e : LeafEvent) (events : List LeafEvent)
    → IsFirst e events
    → w ≤ e.block
    → a ≤ w
    → (pick a w events ≡ []) × (pick a b events ≡ pick w b events)
unfolding pick is_before
pick-late a b w e [] h late le = (refl, refl)
pick-late a b w e (f ∷ events) h late le =
    let (none_before, same) = pick-late a b w e events h.1 late le in
    let still_late : w ≤ f.block = ground (arith, h.0) in (ground arith, ground arith)

pick-split :
    (a w b : ℕ) (events : List LeafEvent)
    → IsSorted events
    → a ≤ w
    → w ≤ b
    → pick a b events ≡ pick a w events ++ pick w b events
unfolding pick
pick-split a w b [] s le le' = refl
pick-split a w b (e ∷ events) s le le' = elim (Bool-cases (ltb e.block w)) [
  | inl early ↦ ground (arith, pick-split a w b events s.1 le le')
  | inr late ↦
      let (none_before, same) = pick-late a b w e events s.0 (ground arith) le in ground arith
]

-- All events of the contract, in its order.
all_events : History → List LeafEvent
all_events h = sort_events (map (to_event add) h.added ++ map (to_event revoke) h.revoked)

events_between-pick : (h : History) (a b : ℕ) → events_between h a b ≡ pick a (b + 1) (all_events h)
unfolding events_between all_events
events_between-pick h a b =
    ap sort_events (λ i. map-select add a b h.added i ++ map-select revoke a b h.revoked i)
    ∙ sym (
        pick-sort_events a (b + 1) (map (to_event add) h.added ++ map (to_event revoke) h.revoked)
        ∙ ap sort_events
            (pick-append a (b + 1) (map (to_event add) h.added) (map (to_event revoke) h.revoked)))

-- Events up to `w`, and from `w` on once more, are those before `w`, those in `w`, and those after.
pub events_between-split :
    (h : History) (w b : ℕ)
    → w ≤ b
    → (early : List LeafEvent) × (at_w : List LeafEvent) × (late : List LeafEvent) × (events_between
          h 0 w
        ≡ early ++ at_w)
      × (events_between h w b ≡ at_w ++ late)
      × (events_between h 0 b ≡ early ++ (at_w ++ late))
unfolding all_events
events_between-split h w b le =
    let events = all_events h in
    let sorted =
      sort_events-IsSorted (map (to_event add) h.added ++ map (to_event revoke) h.revoked) in
    let later = pick-split w (w + 1) (b + 1) events sorted (omega arith) (omega arith) in
    (
      pick 0 w events,
      pick w (w + 1) events,
      pick (w + 1) (b + 1) events,
      events_between-pick h 0 w ∙ pick-split 0 w (w + 1) events sorted (omega arith) (omega arith),
      events_between-pick h w b ∙ later,
      events_between-pick h 0 b
          ∙ pick-split 0 w (b + 1) events sorted (omega arith) (omega arith)
          ∙ ap (λ rest. pick 0 w events ++ rest) later,
    )
