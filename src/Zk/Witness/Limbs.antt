-- ===== src/Zk/Witness/Limbs.antt =====
-- `_to_array32` writes a number in base 2^32, and `_from_array32` reads it.
use Prim.Native.Nat.{bit_xor}
use native.Mathlib.Nat.{pow-suc}
use aca_py_did_kanon.Prelude.{
  ℕ, zero, suc, ◌+◌, ◌-◌, ◌*◌, ◌/◌, ◌%◌, ◌^◌, ◌≤◌, ◌<◌, ◌≡◌, refl, sym, ap, ◌∙◌, inl, inr, false,
  arith, Bool-cases, List, [], ◌∷◌, ◌++◌, map, ◌==◌, ltb, length, replicate, All, Bytes, ok, err,
  err_ne_ok, value_error, length-append, length-replicate, All-append, All-replicate,
}
use aca_py_did_kanon.Zk.Witness.{
  fnv_from, fnv_hash, limbs, to_array32, mask32, from_array32_acc, from_array32, to_i32,
}

abbrev pub IsWord : ℕ → Type 0
IsWord w = w < 2 ^ 32

-- The number that words stand for after those of `res`, the first word highest.
value : ℕ → List ℕ → ℕ
value res [] = res
value res (w ∷ ws) = value (res * 2 ^ 32 + w) ws

value-limbs :
    (fuel rem : ℕ) (arr : List ℕ) → rem ≤ fuel → value 0 (limbs fuel rem arr) ≡ value rem arr
unfolding limbs value
value-limbs zero rem arr h = ap (λ r. value r arr) (omega arith)
value-limbs (suc fuel) rem arr h = elim (Bool-cases (rem == 0)) [
  | inl done ↦ rw (done, limbs) (ap (λ r. value r arr) (ground arith))
  | inr more ↦
      rw (more, limbs)
        (value-limbs fuel (rem / 2 ^ 32) (rem % 2 ^ 32 ∷ arr) (ground arith)
          ∙ ap (λ r. value r arr) (omega arith))
]

limbs-IsWord : (fuel rem : ℕ) (arr : List ℕ) → All IsWord arr → All IsWord (limbs fuel rem arr)
unfolding limbs
limbs-IsWord zero rem arr h = h
limbs-IsWord (suc fuel) rem arr h = elim (Bool-cases (rem == 0)) [
  | inl done ↦ rw (done, limbs) h
  | inr more ↦
      rw (more, limbs) (limbs-IsWord fuel (rem / 2 ^ 32) (rem % 2 ^ 32 ∷ arr) (omega arith, h))
]

div-lt : (k rem : ℕ) → rem < (2 ^ 32) ^ suc k → rem / 2 ^ 32 < (2 ^ 32) ^ k
div-lt k rem h = omega (arith, pow-suc (2 ^ 32) k)

length-limbs :
    (fuel rem k : ℕ) (arr : List ℕ)
    → rem < (2 ^ 32) ^ k
    → length (limbs fuel rem arr) ≤ k + length arr
unfolding limbs
length-limbs zero rem k arr h = omega arith
length-limbs (suc fuel) rem k arr h = elim (Bool-cases (rem == 0)) [
  | inl done ↦ rw (done, limbs) (omega arith)
  | inr more ↦
      rw (more, limbs)
        (step k h more (λ k'. length-limbs fuel (rem / 2 ^ 32) k' (rem % 2 ^ 32 ∷ arr)))
]
  where
    step :
        (k : ℕ)
        → rem < (2 ^ 32) ^ k
        → (rem == 0) ≡ false
        → ((k' : ℕ)
            → rem / 2 ^ 32 < (2 ^ 32) ^ k'
            → length (limbs fuel (rem / 2 ^ 32) (rem % 2 ^ 32 ∷ arr)) ≤ k' + suc (length arr))
        → length (limbs fuel (rem / 2 ^ 32) (rem % 2 ^ 32 ∷ arr)) ≤ k + length arr
    step zero h more rec = absurd (ground arith)
    step (suc k) h more rec = omega (arith, rec k (div-lt k rem h))

pub length-to_array32 : (x size : ℕ) → x < (2 ^ 32) ^ size → length (to_array32 x size) ≡ size
unfolding to_array32
length-to_array32 x size h =
    let arr = limbs x x [] in
    omega (
      arith,
      length-append (replicate (size - length arr) 0) arr,
      length-replicate {A = ℕ} (size - length arr) 0,
      length-limbs x x size [] h,
    )

pub to_array32-IsWord : (x size : ℕ) → All IsWord (to_array32 x size)
unfolding to_array32
to_array32-IsWord x size =
    let arr = limbs x x [] in
    All-append IsWord (replicate (size - length arr) 0) arr
      (All-replicate IsWord (size - length arr) 0 (omega arith)) (limbs-IsWord x x [] tt)

value-zeros : (n : ℕ) (arr : List ℕ) → value 0 (replicate n 0 ++ arr) ≡ value 0 arr
unfolding value
value-zeros zero arr = refl
value-zeros (suc n) arr = value-zeros n arr

value-to_array32 : (x size : ℕ) → value 0 (to_array32 x size) ≡ x
unfolding to_array32 value
value-to_array32 x size =
    let arr = limbs x x [] in value-zeros (size - length arr) arr ∙ value-limbs x x [] (omega arith)

mask32-to_i32 : (w : ℕ) → IsWord w → mask32 (to_i32 w) ≡ w
unfolding mask32 to_i32
mask32-to_i32 w h = ground arith

from_array32_acc-map :
    (res : ℕ) (ws : List ℕ) → All IsWord ws → from_array32_acc res (map to_i32 ws) ≡ value res ws
unfolding from_array32_acc value
from_array32_acc-map res [] h = refl
from_array32_acc-map res (w ∷ ws) h =
    ap (λ v. from_array32_acc (res * 2 ^ 32 + v) (map to_i32 ws)) (mask32-to_i32 w h.0)
    ∙ from_array32_acc-map (res * 2 ^ 32 + w) ws h.1

-- The words of a number, each passed through the signed i32 of its bits, are read back as the number,
-- whatever the size asked for.
pub from_array32-to_array32 : (x size : ℕ) → from_array32 (map to_i32 (to_array32 x size)) ≡ x
unfolding from_array32
from_array32-to_array32 x size =
    from_array32_acc-map 0 (to_array32 x size) (to_array32-IsWord x size) ∙ value-to_array32 x size

fnv_from-lt : (h : ℕ) (bs : Bytes) (r : ℕ) → h < 2 ^ 64 → fnv_from h bs ≡ ok r → r < 2 ^ 64
unfolding fnv_from
fnv_from-lt h [] r lt e = ground arith
fnv_from-lt h (b ∷ bs) r lt e = elim (Bool-cases (ltb b 128)) [
  | inl ascii ↦
      fnv_from-lt (bit_xor h b * 0x100000001B3 % 2 ^ 64) bs r (omega arith)
        (sym (rw (ascii, fnv_from) refl) ∙ e)
  | inr other ↦
      let raised : err value_error ≡ ok r = sym (rw (other, fnv_from) refl) ∙ e in
      absurd (err_ne_ok raised)
]

pub fnv_hash-lt : (bs : Bytes) (r : ℕ) → fnv_hash bs ≡ ok r → r < 2 ^ 64
unfolding fnv_hash
fnv_hash-lt bs r e = fnv_from-lt 0xCBF29CE484222325 bs r (omega arith) e
