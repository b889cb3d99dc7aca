-- ===== src/Zk/Issuer/Replay.antt =====
-- What the replay of leaf events makes of an active set, looked up leaf by leaf.
use aca_py_did_kanon.Prelude.{
  ◌≡◌, refl, Option, none, some, List, [], ◌∷◌, ◌++◌, if◌then◌else◌, Bool-cases, inl, inr, ◌⊎◌,
  Bytes, bytes_eq,
}
use aca_py_did_kanon.Prelude.Dict.{Dict, get, put, pop, get-put, get-pop}
use aca_py_did_kanon.Prelude.Hex.{lower}
use aca_py_did_kanon.Contracts.MerkleState.{LeafEvent, Kind, add, revoke}
use aca_py_did_kanon.Zk.Issuer.State.{apply_event, replay}

-- What one event says of the leaf `k`, when `before` was said of it.
abbrev pub say : Bytes → LeafEvent → Option Bytes → Option Bytes
say k ev before =
    if bytes_eq (lower ev.keccak) k
    then elim ev.kind [ add ↦ some (lower ev.poseidon) | revoke ↦ none ]
    else before

-- The last event of `k` decides.
abbrev pub last_word : Bytes → List LeafEvent → Option Bytes → Option Bytes
last_word k [] before = before
last_word k (ev ∷ events) before = last_word k events (say k ev before)

get-apply_event :
    (k : Bytes) (d : Dict Bytes) (ev : LeafEvent) → get k (apply_event d ev) ≡ say k ev (get k d)
unfolding apply_event
get-apply_event k d ev = go ev.kind
  where
    go :
        (kind : Kind)
        → get k (elim kind [
          | add ↦ put (lower ev.keccak) (lower ev.poseidon) d
          | revoke ↦ pop (lower ev.keccak) d
        ])
          ≡ (if bytes_eq (lower ev.keccak) k
              then elim kind [ add ↦ some (lower ev.poseidon) | revoke ↦ none ]
              else get k d)
    go add = get-put (lower ev.keccak) k (lower ev.poseidon) d
    go revoke = get-pop (lower ev.keccak) k d

-- After a replay, a leaf is active exactly as the last event about it says, and as before the replay
-- if no event is about it: its companion is the one of that event, in lower case.
pub get-replay :
    (k : Bytes) (events : List LeafEvent) (d : Dict Bytes)
    → get k (replay d events) ≡ last_word k events (get k d)
unfolding replay
get-replay k [] d = refl
get-replay k (ev ∷ events) d = rw (get-replay k events (apply_event d ev), get-apply_event k d ev)

-- Either the events decide, whatever was said before, or they leave it.
last_word-cases :
    (k : Bytes) (events : List LeafEvent)
    → ((b c : Option Bytes) → last_word k events b ≡ last_word k events c)
      ⊎ ((b : Option Bytes) → last_word k events b ≡ b)
last_word-cases k [] = inr (λ b. refl)
last_word-cases k (ev ∷ events) = elim (last_word-cases k events) [
  | inl decided ↦ inl (λ b c. decided (say k ev b) (say k ev c))
  | inr left ↦ elim (Bool-cases (bytes_eq (lower ev.keccak) k)) [
    | inl same ↦ inl (λ b c. rw same refl)
    | inr other ↦ inr (λ b. rw other (left b))
  ]
]

pub last_word-append :
    (k : Bytes) (xs ys : List LeafEvent) (b : Option Bytes)
    → last_word k (xs ++ ys) b ≡ last_word k ys (last_word k xs b)
last_word-append k [] ys b = refl
last_word-append k (x ∷ xs) ys b = last_word-append k xs ys (say k x b)

pub last_word_idem :
    (k : Bytes) (xs : List LeafEvent) (b : Option Bytes)
    → last_word k xs (last_word k xs b) ≡ last_word k xs b
last_word_idem k xs b = elim (last_word-cases k xs) [
  | inl decided ↦ decided (last_word k xs b) b
  | inr left ↦ left (last_word k xs b)
]

-- The scan starts again at the last synced block itself: events `old` that were replayed already
-- come once more before the new ones. Replaying them again changes no leaf.
pub replay_again :
    (k : Bytes) (d : Dict Bytes) (old new : List LeafEvent)
    → get k (replay (replay d old) (old ++ new)) ≡ get k (replay d (old ++ new))
replay_again k d old new = rw (
  get-replay k (old ++ new) (replay d old),
  get-replay k (old ++ new) d,
  get-replay k old d,
  last_word-append k old new (last_word k old (get k d)),
  last_word-append k old new (get k d),
  last_word_idem k old (get k d),
)
