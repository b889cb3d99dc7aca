-- ===== src/Contracts/MerkleState/Events.antt =====
-- The list that the scan returns: sorted by block and log index, with every entry of both filters.
use mathlib.Core.List.{Perm, Permᴰ}
use aca_py_did_kanon.Prelude.{
  ℕ, ◌≡◌, refl, true, false, none, List, [], ◌∷◌, ◌++◌, map, arith, Bool-cases, inl, inr, Bytes,
  Result, ok, All,
}
use aca_py_did_kanon.Contracts.Convert.{BytesLike, to_bytes32}
use aca_py_did_kanon.Contracts.MerkleState.{
  Log, LeafEvent, add, revoke, to_event, is_before, insert_event, sort_events, scan, transported,
  get_leaf_events,
}

-- No event of the list comes before `e`.
abbrev pub IsFirst : LeafEvent → List LeafEvent → Type 0
IsFirst e = All (λ f. is_before f e ≡ false)

-- No event comes before one that stands earlier.
abbrev pub IsSorted : List LeafEvent → Type 0
IsSorted [] = Unit
IsSorted (e ∷ events) = IsFirst e events × IsSorted events

is_before_trans :
    (e f g : LeafEvent) → is_before f e ≡ false → is_before g f ≡ false → is_before g e ≡ false
unfolding is_before
is_before_trans e f g h k = ground arith

is_before_asymm : (e f : LeafEvent) → is_before e f ≡ true → is_before f e ≡ false
unfolding is_before
is_before_asymm e f h = ground arith

pub IsFirst-trans :
    (e f : LeafEvent) (events : List LeafEvent)
    → is_before f e ≡ false
    → IsFirst f events
    → IsFirst e events
IsFirst-trans e f [] h a = tt
IsFirst-trans e f (g ∷ events) h a = (is_before_trans e f g h a.0, IsFirst-trans e f events h a.1)

IsFirst-insert_event :
    (e g : LeafEvent) (events : List LeafEvent)
    → is_before g e ≡ false
    → IsFirst e events
    → IsFirst e (insert_event g events)
unfolding insert_event
IsFirst-insert_event e g [] h a = (h, tt)
IsFirst-insert_event e g (f ∷ events) h a = elim (Bool-cases (is_before f g)) [
  | inl before ↦ rw (before, insert_event) (a.0, IsFirst-insert_event e g events h a.1)
  | inr after ↦ rw (after, insert_event) (h, a)
]

insert_event-IsSorted :
    (e : LeafEvent) (events : List LeafEvent) → IsSorted events → IsSorted (insert_event e events)
unfolding insert_event
insert_event-IsSorted e [] s = (tt, tt)
insert_event-IsSorted e (f ∷ events) s = elim (Bool-cases (is_before f e)) [
  | inl before ↦
      rw (before, insert_event)
        (
          IsFirst-insert_event f e events (is_before_asymm f e before) s.0,
          insert_event-IsSorted e events s.1,
        )
  | inr after ↦ rw (after, insert_event) ((after, IsFirst-trans e f events after s.0), s)
]

pub sort_events-IsSorted : (events : List LeafEvent) → IsSorted (sort_events events)
unfolding sort_events
sort_events-IsSorted [] = tt
sort_events-IsSorted (e ∷ events) =
    insert_event-IsSorted e (sort_events events) (sort_events-IsSorted events)

Permᴰ-refl : (events : List LeafEvent) → Permᴰ events events
Permᴰ-refl [] = Permᴰ.nil
Permᴰ-refl (e ∷ events) = Permᴰ.cons refl (Permᴰ-refl events)

insert_event-perm :
    (e : LeafEvent) (events : List LeafEvent) → Permᴰ (e ∷ events) (insert_event e events)
unfolding insert_event
insert_event-perm e [] = Permᴰ-refl (e ∷ [])
insert_event-perm e (f ∷ events) = elim (Bool-cases (is_before f e)) [
  | inl before ↦
      rw (before, insert_event)
        (Permᴰ.trans (Permᴰ.swap refl refl) (Permᴰ.cons refl (insert_event-perm e events)))
  | inr after ↦ rw (after, insert_event) (Permᴰ-refl (e ∷ f ∷ events))
]

sort_events-perm : (events : List LeafEvent) → Permᴰ events (sort_events events)
unfolding sort_events
sort_events-perm [] = Permᴰ.nil
sort_events-perm (e ∷ events) =
    Permᴰ.trans (Permᴰ.cons refl (sort_events-perm events))
      (insert_event-perm e (sort_events events))

-- A scan whose filters answer returns all their entries, each as an event with its leaves in hex,
-- in the order of the chain: no event comes before one that stands earlier in the list.
pub get_leaf_events_lem :
    (tip : ℕ) (added revoked : Bytes → ℕ → ℕ → Result (List Log)) (cred_def_id : BytesLike)
    (cd : Bytes) (from_block : ℕ) (a r : List Log)
    → to_bytes32 cred_def_id ≡ ok cd
    → added cd from_block tip ≡ ok a
    → revoked cd from_block tip ≡ ok r
    → (events : List LeafEvent) × (get_leaf_events
          (ok tip)
          added
          revoked
          cred_def_id
          from_block
          none
        ≡ ok events)
      × IsSorted events
      × Perm (map (to_event add) a ++ map (to_event revoke) r) events
unfolding get_leaf_events scan transported
get_leaf_events_lem tip added revoked cred_def_id cd from_block a r hid ha hr =
    let events = map (to_event add) a ++ map (to_event revoke) r in
    (
      sort_events events,
      rw (hid, ha, hr, get_leaf_events, scan) refl,
      sort_events-IsSorted events,
      ∣ sort_events-perm events ∣₁,
    )
