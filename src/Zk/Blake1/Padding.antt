-- ===== src/Zk/Blake1/Padding.antt =====
-- The loops of `blake512`: what they consume, and how the rest is padded.
use aca_py_did_kanon.Prelude.{
  ℕ, zero, suc, ◌+◌, ◌-◌, ◌*◌, ◌%◌, ◌≤◌, ◌<◌, ◌≡◌, refl, sym, ap, ◌∙◌, true, false, [], ◌∷◌, ◌++◌,
  arith, leb, ◌==◌, if◌then◌else◌, length, length-append, take, drop, length-drop, replicate,
  length-replicate, Bool-cases, inl, inr, Bytes,
}
use mathlib.Core.List.{append_assoc, append-nil}
use aca_py_did_kanon.Prelude.Words.{to_be, length-to_be}
use aca_py_did_kanon.Zk.Blake1.{Absorbed, absorb, zero_pad, padded, compress, salt_512, start}

abbrev pub after_block : Absorbed → Absorbed
after_block s = record {
  chain = compress s.chain (take 128 s.rem) salt_512 (s.t_counter + 1024);
  t_counter = s.t_counter + 1024;
  offset = s.offset + 128;
  rem = drop 128 s.rem;
}

pub absorb-step :
    (fuel : ℕ) (s : Absorbed)
    → leb 128 (length s.rem) ≡ true
    → absorb (suc fuel) s ≡ absorb fuel (after_block s)
unfolding absorb
absorb-step fuel s h = rw (h, absorb) refl

pub absorb-stop :
    (fuel : ℕ) (s : Absorbed) → leb 128 (length s.rem) ≡ false → absorb (suc fuel) s ≡ s
unfolding absorb
absorb-stop fuel s h = rw (h, absorb) refl

-- The invariant of the loop over full blocks.
abbrev IsAbsorbing : ℕ → Absorbed → Type 0
IsAbsorbing n s =
    (s.offset + length s.rem ≡ n) × (s.offset % 128 ≡ 0) × (s.t_counter ≡ s.offset * 8)

absorb-IsAbsorbing :
    (fuel n : ℕ) (s : Absorbed)
    → length s.rem ≤ fuel
    → IsAbsorbing n s
    → (length (absorb fuel s).rem < 128) × IsAbsorbing n (absorb fuel s)
unfolding absorb
absorb-IsAbsorbing zero n s le inv = (omega arith, inv)
absorb-IsAbsorbing (suc fuel) n s le inv = elim (Bool-cases (leb 128 (length s.rem))) [
  | inr small ↦
      let short : length s.rem < 128 = ground arith in rw (absorb-stop fuel s small) (short, inv)
  | inl big ↦
      let long : 128 ≤ length s.rem = ground arith in
      let dropped : length (drop 128 s.rem) ≡ length s.rem - 128 = length-drop 128 s.rem in
      let inv' : IsAbsorbing n (after_block s) = (omega arith, omega arith, omega arith) in
      rw (absorb-step fuel s big) (absorb-IsAbsorbing fuel n (after_block s) (omega arith) inv')
]

-- The loop over full blocks ends, for data of any length, with less than a block left: a multiple of
-- 128 bytes has gone in, the counter says how many bits, and the rest is all that is left.
pub absorb_lem :
    (bytes : Bytes)
    → (length (absorb (length bytes) (start bytes)).rem < 128)
      × ((absorb (length bytes) (start bytes)).offset
            + length (absorb (length bytes) (start bytes)).rem
          ≡ length bytes)
      × ((absorb (length bytes) (start bytes)).offset % 128 ≡ 0)
      × ((absorb (length bytes) (start bytes)).t_counter
          ≡ (absorb (length bytes) (start bytes)).offset * 8)
absorb_lem bytes =
    let (short, inv) =
      absorb-IsAbsorbing (length bytes) (length bytes) (start bytes) (omega arith)
        (omega arith, refl, refl) in
    (short, inv.0, inv.1, inv.2)

zero_pad-step :
    (fuel : ℕ) (pad : Bytes)
    → (length pad % 128 == 111) ≡ false
    → zero_pad (suc fuel) pad ≡ zero_pad fuel (pad ++ 0 ∷ [])
unfolding zero_pad
zero_pad-step fuel pad h = rw (h, zero_pad) refl

zero_pad-stop :
    (fuel : ℕ) (pad : Bytes) → (length pad % 128 == 111) ≡ true → zero_pad (suc fuel) pad ≡ pad
unfolding zero_pad
zero_pad-stop fuel pad h = rw (h, zero_pad) refl

-- With `z` zeros missing and fuel for them, the loop appends `z` zeros.
zero_pad-replicate :
    (fuel z : ℕ) (pad : Bytes)
    → z < fuel
    → z < 128
    → (length pad + z) % 128 ≡ 111
    → zero_pad fuel pad ≡ pad ++ replicate z 0
unfolding zero_pad
zero_pad-replicate zero z pad lt lt' e = elim lt [ ]
zero_pad-replicate (suc fuel) zero pad lt lt' e =
    let stop : (length pad % 128 == 111) ≡ true = ground arith in
    zero_pad-stop fuel pad stop ∙ sym (append-nil pad)
zero_pad-replicate (suc fuel) (suc z) pad lt lt' e =
    let go : (length pad % 128 == 111) ≡ false = ground arith in
    let longer : length (pad ++ 0 ∷ []) ≡ length pad + 1 = length-append pad (0 ∷ []) in
    zero_pad-step fuel pad go
    ∙ zero_pad-replicate fuel z (pad ++ 0 ∷ []) (omega arith) (omega arith) (omega arith)
    ∙ append_assoc pad (0 ∷ []) (replicate z 0)

-- A rest of less than a block is followed by the byte 0x80, by zeros up to 111 bytes of a block, by the
-- byte 1 and by 16 bytes of length. This is one block if the rest has at most 110 bytes, else two; so
-- a rest of 111 bytes takes a second block.
pub padded_lem :
    (rem : Bytes) (bits : ℕ)
    → length rem < 128
    → (z : ℕ) × (padded rem bits
        ≡ (rem ++ 128 ∷ []) ++ (replicate z 0 ++ (1 ∷ (to_be 8 0 ++ to_be 8 bits))))
      × (length (padded rem bits) ≡ (if leb (length rem) 110 then 128 else 256))
unfolding padded
padded_lem rem bits lt =
    let z : ℕ = (238 - length rem) % 128 in
    let one_more : length (rem ++ 128 ∷ []) ≡ length rem + 1 = length-append rem (128 ∷ []) in
    let zeros =
      zero_pad-replicate 128 z (rem ++ 128 ∷ []) (omega arith) (omega arith) (omega arith) in
    let tail : Bytes = 1 ∷ (to_be 8 0 ++ to_be 8 bits) in
    let whole : padded rem bits ≡ (rem ++ 128 ∷ []) ++ (replicate z 0 ++ tail) =
      ap (λ x. x ++ tail) zeros ∙ append_assoc (rem ++ 128 ∷ []) (replicate z 0) tail in
    let l1 = length-append (rem ++ 128 ∷ []) (replicate z 0 ++ tail) in
    let l2 = length-append (replicate z 0) tail in
    let l3 : length {A = ℕ} (replicate z 0) ≡ z = length-replicate z 0 in
    let l4 : length tail ≡ 17 = ap suc (
      length-append (to_be 8 0) (to_be 8 bits)
      ∙ omega (arith, length-to_be 8 0, length-to_be 8 bits)) in
    let size : length rem + 1 + (z + 17) ≡ (if leb (length rem) 110 then 128 else 256) =
      ground arith in
    (z, whole, ap length whole ∙ l1 ∙ omega (arith, one_more, l2, l3, l4) ∙ size)
