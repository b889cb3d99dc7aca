-- ===== src/Zk/Witness/Memory.antt =====
-- What the circuit finds in the shared memory when a value of a signal is set.
use mathlib.Core.List.{reverse, reverse-cons, reverse-reverse, map-append}
use mathlib.Core.Path.{ap₂}
use native.Mathlib.Nat.{mod-lt}
use aca_py_did_kanon.Prelude.{
  subst, ℕ, suc, ◌^◌, ◌≤◌, ◌<◌, ◌≡◌, refl, sym, ap, ◌∙◌, arith, List, [], ◌∷◌, ◌++◌, map, ◌==◌,
  if◌then◌else◌, length, length-append,
}
use aca_py_did_kanon.Prelude.Text.{ℤ, pos, negsuc}
use aca_py_did_kanon.Zk.Witness.{
  Circuit, to_array32, from_array32, to_i32, mod_prime, write_words, read_words,
}
use aca_py_did_kanon.Zk.Witness.Limbs.{length-to_array32, from_array32-to_array32}

-- The shared memory holds what was written at each place.
pub record MemoryLaws {S : Type 0} (c : Circuit S) : Type 0 where
  pub read-write :
      (s : S) (j i : ℕ) (w : ℤ)
      → c.read_shared (c.write_shared j w s) i ≡ (if j == i then w else c.read_shared s i)

length-reverse : (ws : List ℕ) → length (reverse ws) ≡ length ws
length-reverse [] = refl
length-reverse (w ∷ ws) =
    ap length (reverse-cons w ws)
    ∙ omega (arith, length-append (reverse ws) (w ∷ []), length-reverse ws)

map-reverse : (f : ℕ → ℤ) (ws : List ℕ) → map f (reverse ws) ≡ reverse (map f ws)
map-reverse f [] = refl
map-reverse f (w ∷ ws) =
    ap (map f) (reverse-cons w ws)
    ∙ (map-append f (reverse ws) (w ∷ [])
        ∙ (ap (λ vs. vs ++ f w ∷ []) (map-reverse f ws) ∙ sym (reverse-cons (f w) (map f ws))))

pub mod_prime-lt : (raw : ℤ) (prime : ℕ) → 0 < prime → mod_prime raw prime < prime
unfolding mod_prime
mod_prime-lt (pos n) prime h = mod-lt n h
mod_prime-lt (negsuc n) prime h = omega arith

module _ {S : Type 0} (c : Circuit S) (laws : MemoryLaws c) where
  -- Writing from place `j` on leaves the places before it alone.
  read-write_words :
      (j i : ℕ) (ws : List ℕ) (s : S)
      → i < j
      → c.read_shared (write_words c j ws s) i ≡ c.read_shared s i
  unfolding write_words
  read-write_words j i [] s h = refl
  read-write_words j i (w ∷ ws) s h =
      read-write_words (suc j) i ws (c.write_shared j (to_i32 w) s) (omega arith)
      ∙ ground (arith, laws.read-write s j i (to_i32 w))

  read_words-write_words :
      (j : ℕ) (ws : List ℕ) (s : S)
      → read_words c (write_words c j ws s) j (length ws) ≡ map to_i32 ws
  unfolding write_words read_words
  read_words-write_words j [] s = refl
  read_words-write_words j (w ∷ ws) s =
      let s' = c.write_shared j (to_i32 w) s in
      let first : c.read_shared (write_words c (suc j) ws s') j ≡ to_i32 w =
        read-write_words (suc j) j ws s' (omega arith)
        ∙ ground (arith, laws.read-write s j j (to_i32 w)) in
      ap₂ ◌∷◌ first (read_words-write_words (suc j) ws s')

  -- Where a word of the circuit's field fits in its places, the memory that a value is set from holds
  -- the value reduced by the prime, read in the way in which a witness value is read.
  pub from_array32-written :
      (raw : ℤ) (s : S)
      → 0 < c.prime
      → c.prime ≤ (2 ^ 32) ^ c.n32
      → from_array32 (
          reverse (
            read_words c
              (write_words c 0 (reverse (to_array32 (mod_prime raw c.prime) c.n32)) s)
              0
              c.n32))
        ≡ mod_prime raw c.prime
  from_array32-written raw s pos_prime fits =
      let x = mod_prime raw c.prime in
      let words = to_array32 x c.n32 in
      let size : length words ≡ c.n32 =
        length-to_array32 x c.n32 (below fits (mod_prime-lt raw c.prime pos_prime)) in
      let written : read_words c (write_words c 0 (reverse words) s) 0 c.n32
          ≡ map to_i32 (reverse words) =
        subst
          (λ n. read_words c (write_words c 0 (reverse words) s) 0 n ≡ map to_i32 (reverse words))
          (length-reverse words ∙ size) (read_words-write_words 0 (reverse words) s) in
      ap (λ ws. from_array32 (reverse ws)) written
      ∙ (ap from_array32
            (ap reverse (map-reverse to_i32 words) ∙ reverse-reverse (map to_i32 words))
          ∙ from_array32-to_array32 x c.n32)
    where
      below : {m n k : ℕ} → m ≤ n → k < m → k < n
      below p q = omega arith
