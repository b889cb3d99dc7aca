-- ===== src/Zk/Issuer/Canonical.antt =====
-- The invariant of an active set (lowercase hex, every leaf once), and the checkpoint's round trip.
use aca_py_did_kanon.Prelude.{
  ℕ, suc, ◌≡◌, refl, sym, ap, ◌∙◌, true, false, none, List, [], ◌∷◌, ◌++◌, arith, ◌==◌, length,
  Bool-cases, inl, inr, Bytes, bytes_eq, bytes_eq_iff, ok,
}
use mathlib.Core.List.{append_assoc, append-nil}
use aca_py_did_kanon.Prelude.Dict.{Dict, get, put, pop, keys, values, get-put, get-pop, put_new}
use aca_py_did_kanon.Prelude.Hex.{lower, lower_char}
use aca_py_did_kanon.Contracts.MerkleState.{LeafEvent, Kind, add, revoke}
use aca_py_did_kanon.Zk.Issuer.State.{
  IssuerState, Checkpoint, to_dict, from_dict, zip_lower, apply_event, replay,
}

abbrev pub IsLower : Bytes → Type 0
IsLower t = lower t ≡ t

-- Every key once, keys and values in lower case.
abbrev pub IsCanonical : Dict Bytes → Type 0
IsCanonical [] = Unit
IsCanonical ((k, p) ∷ d) = IsLower k × IsLower p × (get k d ≡ none) × IsCanonical d

lower_char-lower_char : (c : ℕ) → lower_char (lower_char c) ≡ lower_char c
unfolding lower_char
lower_char-lower_char c = ground arith

pub lower-IsLower : (t : Bytes) → IsLower (lower t)
unfolding lower
lower-IsLower [] = refl
lower-IsLower (c ∷ t) = rw (lower_char-lower_char c, lower-IsLower t)

pub put-IsCanonical :
    (k p : Bytes) (d : Dict Bytes) → IsLower k → IsLower p → IsCanonical d → IsCanonical (put k p d)
unfolding put get
put-IsCanonical k p [] lk lp c = (lk, lp, refl, tt)
put-IsCanonical k p ((j, q) ∷ d) lk lp c = elim (Bool-cases (bytes_eq j k)) [
  | inl same ↦ rw (same, put) (c.0, lp, c.2, c.3)
  | inr other ↦
      let absent : get j (put k p d) ≡ none =
        get-put k j p d ∙ ground (arith, bytes_eq_iff j k, bytes_eq_iff k j, c.2) in
      rw (other, put) (c.0, c.1, absent, put-IsCanonical k p d lk lp c.3)
]

pub pop-IsCanonical : (k : Bytes) (d : Dict Bytes) → IsCanonical d → IsCanonical (pop k d)
unfolding pop
pop-IsCanonical k [] c = tt
pop-IsCanonical k ((j, q) ∷ d) c = elim (Bool-cases (bytes_eq j k)) [
  | inl same ↦ rw (same, pop) (pop-IsCanonical k d c.3)
  | inr other ↦
      let absent : get j (pop k d) ≡ none = get-pop k j d ∙ ground (arith, c.2) in
      rw (other, pop) (c.0, c.1, absent, pop-IsCanonical k d c.3)
]

pub apply_event-IsCanonical :
    (d : Dict Bytes) (ev : LeafEvent) → IsCanonical d → IsCanonical (apply_event d ev)
unfolding apply_event
apply_event-IsCanonical d ev c = go ev.kind
  where
    go :
        (kind : Kind)
        → IsCanonical (elim kind [
          | add ↦ put (lower ev.keccak) (lower ev.poseidon) d
          | revoke ↦ pop (lower ev.keccak) d
        ])
    go add =
        put-IsCanonical (lower ev.keccak) (lower ev.poseidon) d (lower-IsLower ev.keccak)
          (lower-IsLower ev.poseidon) c
    go revoke = pop-IsCanonical (lower ev.keccak) d c

-- Whatever events the chain reports, in whatever spelling, the replayed set is canonical.
pub replay-IsCanonical :
    (d : Dict Bytes) (events : List LeafEvent) → IsCanonical d → IsCanonical (replay d events)
unfolding replay
replay-IsCanonical d [] c = c
replay-IsCanonical d (ev ∷ events) c =
    replay-IsCanonical (apply_event d ev) events (apply_event-IsCanonical d ev c)

zip_lower-IsCanonical :
    (ks ps : List Bytes) (d : Dict Bytes) → IsCanonical d → IsCanonical (zip_lower ks ps d)
unfolding zip_lower
zip_lower-IsCanonical [] ps d c = c
zip_lower-IsCanonical (k ∷ ks) [] d c = c
zip_lower-IsCanonical (k ∷ ks) (p ∷ ps) d c =
    zip_lower-IsCanonical ks ps (put (lower k) (lower p) d)
      (put-IsCanonical (lower k) (lower p) d (lower-IsLower k) (lower-IsLower p) c)

-- What a checkpoint is read as is canonical, whatever was stored.
pub from_dict-IsCanonical :
    (c : Checkpoint) (st : IssuerState) → from_dict c ≡ ok st → IsCanonical st.active
unfolding from_dict
from_dict-IsCanonical c st h =
    let e : st.active ≡ zip_lower c.keccak c.poseidon [] = ground arith in
    rw e (zip_lower-IsCanonical c.keccak c.poseidon [] tt)

length-keys : (d : Dict Bytes) → length (keys d) ≡ length (values d)
unfolding keys values
length-keys [] = refl
length-keys ((k, p) ∷ d) = ap suc (length-keys d)

-- The keys of `d` are new to `base`.
abbrev AreNew : Dict Bytes → Dict Bytes → Type 0
AreNew [] base = Unit
AreNew ((k, p) ∷ d) base = (get k base ≡ none) × AreNew d base

AreNew-snoc :
    (d base : Dict Bytes) (k p : Bytes)
    → AreNew d base
    → get k d ≡ none
    → AreNew d (base ++ (k, p) ∷ [])
unfolding get
AreNew-snoc [] base k p n h = tt
AreNew-snoc ((j, q) ∷ d) base k p n h =
    let other : bytes_eq j k ≡ false = ground arith in
    let head : get j (base ++ (k, p) ∷ []) ≡ none =
      get-snoc base k p j n.0 (bytes_eq_off j k other) in
    (head, AreNew-snoc d base k p n.1 (ground arith))
  where
    bytes_eq_off : (a b : Bytes) → bytes_eq a b ≡ false → bytes_eq b a ≡ false
    bytes_eq_off a b h = ground (arith, bytes_eq_iff a b, bytes_eq_iff b a)

    get-snoc :
        (base : Dict Bytes) (k p j : Bytes)
        → get j base ≡ none
        → bytes_eq k j ≡ false
        → get j (base ++ (k, p) ∷ []) ≡ none
    get-snoc [] k p j e off = rw off
    get-snoc ((i, q) ∷ base) k p j e off = ground (arith, get-snoc base k p j)

zip_lower-keys-values :
    (d base : Dict Bytes)
    → IsCanonical d
    → AreNew d base
    → zip_lower (keys d) (values d) base ≡ base ++ d
unfolding zip_lower keys values
zip_lower-keys-values [] base c n = sym (append-nil base)
zip_lower-keys-values ((k, p) ∷ d) base c n =
    let rest : zip_lower (keys d) (values d) (base ++ (k, p) ∷ []) ≡ (base ++ (k, p) ∷ []) ++ d =
      zip_lower-keys-values d (base ++ (k, p) ∷ []) c.3 (AreNew-snoc d base k p n.1 c.2) in
    rw (c.0, c.1, put_new k p base n.0) (rest ∙ append_assoc base ((k, p) ∷ []) d)

AreNew-nil : (d : Dict Bytes) → AreNew d []
unfolding get
AreNew-nil [] = tt
AreNew-nil ((k, p) ∷ d) = (refl, AreNew-nil d)

-- A checkpoint that `to_dict` writes for a canonical active set is read back by `from_dict` as the
-- same state, the order of the leaves included.
pub from_dict-to_dict : (st : IssuerState) → IsCanonical st.active → from_dict (to_dict st) ≡ ok st
unfolding from_dict to_dict
from_dict-to_dict st c =
    let same : (length (keys st.active) == length (values st.active)) ≡ true =
      let l = length-keys st.active in ground arith in
    rw (same, zip_lower-keys-values st.active [] c (AreNew-nil st.active))
