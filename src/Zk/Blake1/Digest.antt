-- ===== src/Zk/Blake1/Digest.antt =====
-- Words stay below 2 ^ 64, so `struct.pack` accepts them, and a digest has 64 bytes.
use Prim.Native.Nat.{bit_xor}
use aca_py_did_kanon.Prelude.{
  ℕ, zero, suc, ◌+◌, ◌*◌, ◌%◌, ◌/◌, ◌^◌, ◌<◌, ◌≡◌, refl, ap, ◌∙◌, true, false, List, [], ◌∷◌, arith,
  leb, ltb, ◌==◌, ◌&&◌, Bool, length, length-append, get_or, take, drop, All, All-append, All-set,
  Bool-cases, inl, inr, Bytes, ok,
}
use aca_py_did_kanon.Prelude.Bits.{bit_xor-lt}
use aca_py_did_kanon.Prelude.Hex.{IsByte}
use aca_py_did_kanon.Prelude.Words.{to_be, length-to_be, to_be-IsByte}
use aca_py_did_kanon.Zk.Blake1.Padding.{after_block, absorb-step, absorb-stop}
use aca_py_did_kanon.Zk.Blake1.{
  Absorbed, iv_512, c_512, salt_512, g, words_of, mix, rounds, initial, finalise, compress, absorb,
  padded, finish, pack, start, blake512,
}

abbrev pub IsWord : ℕ → Type 0
IsWord x = x < 2 ^ 64

-- A chain: eight words.
abbrev pub IsChain : List ℕ → Type 0
IsChain h = (length h ≡ 8) × All IsWord h

get_or-IsWord : (xs : List ℕ) (i : ℕ) → All IsWord xs → IsWord (get_or xs i 0)
get_or-IsWord [] i a = omega arith
get_or-IsWord (x ∷ xs) zero a = a.0
get_or-IsWord (x ∷ xs) (suc i) a = get_or-IsWord xs i a.1

g-IsWord : (a b c d e f : ℕ) (m v : List ℕ) → All IsWord v → All IsWord (g a b c d m e f v)
unfolding g
g-IsWord a b c d e f m v h =
    All-set IsWord _ b _
      (All-set IsWord _ c _
        (All-set IsWord _ d _ (All-set IsWord v a _ h (omega arith)) (omega arith)) (omega arith))
      (omega arith)

mix-IsWord : (m s v : List ℕ) → All IsWord v → All IsWord (mix m s v)
unfolding mix
mix-IsWord m s v h = g-IsWord 3 4 9 14 _ _ m _ (
    g-IsWord 2 7 8 13 _ _ m _ (
      g-IsWord 1 6 11 12 _ _ m _ (
        g-IsWord 0 5 10 15 _ _ m _ (
          g-IsWord 3 7 11 15 _ _ m _ (
            g-IsWord 2 6 10 14 _ _ m _
              (g-IsWord 1 5 9 13 _ _ m _ (g-IsWord 0 4 8 12 _ _ m v h)))))))

rounds-IsWord : (n r : ℕ) (m v : List ℕ) → All IsWord v → All IsWord (rounds n r m v)
unfolding rounds
rounds-IsWord zero r m v h = h
rounds-IsWord (suc n) r m v h = rounds-IsWord n (suc r) m _ (mix-IsWord m _ v h)

are_words : List ℕ → Bool
are_words [] = true
are_words (x ∷ xs) = ltb x (2 ^ 64) && are_words xs

are_words-IsWord : (xs : List ℕ) → are_words xs ≡ true → All IsWord xs
unfolding are_words
are_words-IsWord [] h = tt
are_words-IsWord (x ∷ xs) h = (ground arith, are_words-IsWord xs (ground arith))

c_512-IsWord : All IsWord c_512
unfolding are_words
c_512-IsWord = are_words-IsWord c_512 refl

iv_512-IsChain : IsChain iv_512
unfolding are_words
iv_512-IsChain = (refl, are_words-IsWord iv_512 refl)

salt_512-IsWord : All IsWord salt_512
unfolding are_words
salt_512-IsWord = are_words-IsWord salt_512 refl

xor-IsWord : (a b : ℕ) → IsWord a → IsWord b → IsWord (bit_xor a b)
xor-IsWord a b p q = bit_xor-lt 64 a b p q

initial-IsWord : (h : List ℕ) (t : ℕ) → All IsWord h → All IsWord (initial h salt_512 t)
unfolding initial
initial-IsWord h t a =
    let c = λ (i : ℕ). get_or-IsWord c_512 i c_512-IsWord in
    let low : IsWord (t % 2 ^ 64) = omega arith in
    let high : IsWord (t / 2 ^ 64 % 2 ^ 64) = omega arith in
    let x = λ (i : ℕ) (s : ℕ) (small : IsWord s). xor-IsWord s (get_or c_512 i 0) small (c i) in
    let z : IsWord 0 = omega arith in
    All-append IsWord h _ a (
      x 0 0 z,
      (x 1 0 z, (x 2 0 z, (x 3 0 z, (x 4 _ low, (x 5 _ low, (x 6 _ high, (x 7 _ high, tt))))))),
    )

finalise-IsWord :
    (i : ℕ) (h v : List ℕ) → All IsWord h → All IsWord v → All IsWord (finalise i h v salt_512)
unfolding finalise
finalise-IsWord i [] v a b = tt
finalise-IsWord i (x ∷ h) v a b = (
  xor-IsWord _ _
      (xor-IsWord _ _ (xor-IsWord x _ a.0 (get_or-IsWord v i b)) (get_or-IsWord v (i + 8) b))
      (get_or-IsWord salt_512 (i % 4) salt_512-IsWord),
  finalise-IsWord (suc i) h v a.1 b,
)

length-finalise : (i : ℕ) (h v salt : List ℕ) → length (finalise i h v salt) ≡ length h
unfolding finalise
length-finalise i [] v salt = refl
length-finalise i (x ∷ h) v salt = ap suc (length-finalise (suc i) h v salt)

-- Compressing any block into a chain of eight words gives eight words.
compress-IsChain :
    (h : List ℕ) (block : Bytes) (t : ℕ) → IsChain h → IsChain (compress h block salt_512 t)
unfolding compress
compress-IsChain h block t (l, a) = (
  length-finalise 0 h (rounds 16 0 (words_of 16 block) (initial h salt_512 t)) salt_512 ∙ l,
  finalise-IsWord 0 h (rounds 16 0 (words_of 16 block) (initial h salt_512 t)) a
      (rounds-IsWord 16 0 (words_of 16 block) (initial h salt_512 t) (initial-IsWord h t a)),
)

absorb-IsChain : (fuel : ℕ) (s : Absorbed) → IsChain s.chain → IsChain ((absorb fuel s).chain)
unfolding absorb
absorb-IsChain zero s c = c
absorb-IsChain (suc fuel) s c = elim (Bool-cases (leb 128 (length s.rem))) [
  | inr small ↦ rw (absorb-stop fuel s small) c
  | inl big ↦ rw (absorb-step fuel s big) (
      absorb-IsChain fuel (after_block s)
        (compress-IsChain s.chain (take 128 s.rem) (s.t_counter + 1024) c))
]

finish-IsChain : (s : Absorbed) → IsChain s.chain → IsChain (finish s)
unfolding finish
finish-IsChain s c =
    let pad = padded s.rem (length s.rem * 8 + s.offset * 8) in
    elim (Bool-cases (length pad == 128)) [
      | inl one ↦ rw (one, finish) (compress-IsChain s.chain pad _ c)
      | inr two ↦
          rw (two, finish)
            (compress-IsChain _ (drop 128 pad) 0 (compress-IsChain s.chain (take 128 pad) _ c))
    ]

pack_lem : (h : List ℕ) → (length (pack h) ≡ 8 * length h) × All IsByte (pack h)
unfolding pack
pack_lem [] = (refl, tt)
pack_lem (x ∷ h) =
    let (l, a) = pack_lem h in
    (
      omega (arith, length-append (to_be 8 x) (pack h), length-to_be 8 x),
      All-append IsByte (to_be 8 x) (pack h) (to_be-IsByte 8 x) a,
    )

-- `blake512` of any data whose bit length is below 2 ^ 64 gives 64 bytes, and the words that it packs
-- are below 2 ^ 64, as `struct.pack` wants.
pub blake512_lem :
    (bytes : Bytes)
    → length bytes * 8 < 2 ^ 64
    → (digest : Bytes) × (blake512 bytes ≡ ok digest)
      × (length digest ≡ 64)
      × All IsByte digest
      × All IsWord (finish (absorb (length bytes) (start bytes)))
unfolding blake512
blake512_lem bytes lt =
    let fits : leb (2 ^ 64) (length bytes * 8) ≡ false = ground arith in
    let chain =
      finish-IsChain (absorb (length bytes) (start bytes))
        (absorb-IsChain (length bytes) (start bytes) iv_512-IsChain) in
    let (l, a) = pack_lem (finish (absorb (length bytes) (start bytes))) in
    (
      pack (finish (absorb (length bytes) (start bytes))),
      rw fits refl,
      l ∙ ap (λ n. 8 * n) chain.0,
      a,
      chain.1,
    )
