-- ===== src/Zk/BabyJubjub/ToyGroup.antt =====
-- The five multiples of the base point of the small curve are a subgroup.
use aca_py_did_kanon.Prelude.{◌≡◌, refl, sym, ap, ◌∙◌, subst, true, arith, ok, ok_inj}
use mathlib.Core.Path.{ap₂}
use aca_py_did_kanon.Zk.BabyJubjub.{Point, add, in_curve}
use aca_py_did_kanon.Zk.BabyJubjub.Formula.{IsReduced}
use aca_py_did_kanon.Zk.BabyJubjub.Multiples.{IsSubgroup}
use aca_py_did_kanon.Zk.BabyJubjub.Toy.{small}

pub data Index : Type 0 where
  i0 i1 i2 i3 i4 : Index

abbrev pub point : Index → Point
point i0 = (0, 1)
point i1 = (5, 23)
point i2 = (9, 18)
point i3 = (20, 18)
point i4 = (24, 23)

-- One more, and the sum of indices.
abbrev next : Index → Index
next i0 = i1
next i1 = i2
next i2 = i3
next i3 = i4
next i4 = i0

abbrev plus : Index → Index → Index
plus i0 j = j
plus i1 j = next j
plus i2 j = next (next j)
plus i3 j = next (next (next j))
plus i4 j = next (next (next (next j)))

next_five : (j : Index) → next (next (next (next (next j)))) ≡ j
next_five i0 = refl
next_five i1 = refl
next_five i2 = refl
next_five i3 = refl
next_five i4 = refl

plus-next : (i j : Index) → plus (next i) j ≡ next (plus i j)
plus-next i0 j = refl
plus-next i1 j = refl
plus-next i2 j = refl
plus-next i3 j = refl
plus-next i4 j = sym (next_five j)

plus_assoc : (i j k : Index) → plus (plus i j) k ≡ plus i (plus j k)
plus_assoc i0 j k = refl
plus_assoc i1 j k = plus-next j k
plus_assoc i2 j k = plus-next (next j) k ∙ ap next (plus-next j k)
plus_assoc i3 j k =
    plus-next (next (next j)) k ∙ ap next (plus-next (next j) k ∙ ap next (plus-next j k))
plus_assoc i4 j k =
    plus-next (next (next (next j))) k
    ∙ ap next
        (plus-next (next (next j)) k ∙ ap next (plus-next (next j) k ∙ ap next (plus-next j k)))

add-point : (i j : Index) → add small (point i) (point j) ≡ ok (point (plus i j))
unfolding add
add-point i0 i0 = refl
add-point i0 i1 = refl
add-point i0 i2 = refl
add-point i0 i3 = refl
add-point i0 i4 = refl
add-point i1 i0 = refl
add-point i1 i1 = refl
add-point i1 i2 = refl
add-point i1 i3 = refl
add-point i1 i4 = refl
add-point i2 i0 = refl
add-point i2 i1 = refl
add-point i2 i2 = refl
add-point i2 i3 = refl
add-point i2 i4 = refl
add-point i3 i0 = refl
add-point i3 i1 = refl
add-point i3 i2 = refl
add-point i3 i3 = refl
add-point i3 i4 = refl
add-point i4 i0 = refl
add-point i4 i1 = refl
add-point i4 i2 = refl
add-point i4 i3 = refl
add-point i4 i4 = refl

-- The multiples of the base point.
abbrev pub IsMultiple : Point → Type 0
IsMultiple q = (i : Index) × (q ≡ point i)

add-multiples :
    (p q : Point) (i j : Index) → p ≡ point i → q ≡ point j → add small p q ≡ ok (point (plus i j))
add-multiples p q i j hp hq = ap₂ (add small) hp hq ∙ add-point i j

point-IsReduced : (i : Index) → IsReduced small (point i)
point-IsReduced i0 = (omega arith, omega arith)
point-IsReduced i1 = (omega arith, omega arith)
point-IsReduced i2 = (omega arith, omega arith)
point-IsReduced i3 = (omega arith, omega arith)
point-IsReduced i4 = (omega arith, omega arith)

point-in_curve : (i : Index) → in_curve small (point i) ≡ true
unfolding in_curve
point-in_curve i0 = refl
point-in_curve i1 = refl
point-in_curve i2 = refl
point-in_curve i3 = refl
point-in_curve i4 = refl

pub small-IsSubgroup : IsSubgroup small IsMultiple
small-IsSubgroup = record {
  large = omega arith;
  reduced = λ q h. subst (IsReduced small) (sym h.1) (point-IsReduced h.0);
  on_curve = λ q h. ap (in_curve small) h.1 ∙ point-in_curve h.0;
  identity = (i0, refl);
  base = (i1, refl);
  closed = λ p q hp hq.
      (point (plus hp.0 hq.0), add-multiples p q hp.0 hq.0 hp.1 hq.1, (plus hp.0 hq.0, refl));
  assoc = λ p q r pq qr hp hq hr e1 e2.
      let left : pq ≡ point (plus hp.0 hq.0) =
        ok_inj (sym e1 ∙ add-multiples p q hp.0 hq.0 hp.1 hq.1) in
      let right : qr ≡ point (plus hq.0 hr.0) =
        ok_inj (sym e2 ∙ add-multiples q r hq.0 hr.0 hq.1 hr.1) in
      add-multiples pq r (plus hp.0 hq.0) hr.0 left hr.1
      ∙ (ap (λ i. ok (point i)) (plus_assoc hp.0 hq.0 hr.0)
          ∙ sym (add-multiples p qr hp.0 (plus hq.0 hr.0) hp.1 right));
}
