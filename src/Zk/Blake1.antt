-- ===== src/Zk/Blake1.antt =====
-- zk/_blake1.py: BLAKE-512 on bytes. A word is a number below 2 ^ 64.
pub mod Padding
pub mod Digest
mod Tests
use Prim.Native.Nat.{bit_or, bit_xor}
use aca_py_did_kanon.Prelude.{
  ℕ, zero, suc, ◌+◌, ◌-◌, ◌*◌, ◌/◌, ◌%◌, ◌^◌, Bool, true, false, not, List, [], ◌∷◌, ◌++◌, ltb, leb,
  ◌==◌, if◌then◌else◌, length, get_or, set, take, drop, replicate, Bytes, Result, ok, err,
  other_error, ◌>>=◌, ◌>>◌, raise_if,
}
use aca_py_did_kanon.Prelude.Words.{from_be, to_be}

-- `x & 0xFFFFFFFFFFFFFFFF`
abbrev pub u64 : ℕ → ℕ
u64 x = x % 2 ^ 64

abbrev pub rotr64 : ℕ → ℕ → ℕ
rotr64 x n = bit_or (x / 2 ^ n) (x * 2 ^ (64 - n)) % 2 ^ 64

abbrev pub iv_512 : List ℕ
iv_512 =
    7640891576956012808 ∷ 13503953896175478587 ∷ 4354685564936845355 ∷ 11912009170470909681
    ∷ 5840696475078001361 ∷ 11170449401992604703 ∷ 2270897969802886507 ∷ 6620516959819538809 ∷ []

abbrev pub c_512 : List ℕ
c_512 =
    2611923443488327891 ∷ 1376283091369227076 ∷ 11820040416388919760 ∷ 589684135938649225
    ∷ 4983270260364809079 ∷ 13714699805381954668 ∷ 13883517620612518109 ∷ 4577018097722394903
    ∷ 10526836309316205339 ∷ 15073842237943035308 ∷ 3458046377305235383 ∷ 13322122606961655446
    ∷ 13437774018240085913 ∷ 2639559389850201335 ∷ 577009281997405206 ∷ 7163292796296056425 ∷ []

abbrev pub sigma : List (List ℕ)
sigma =
    (0 ∷ 1 ∷ 2 ∷ 3 ∷ 4 ∷ 5 ∷ 6 ∷ 7 ∷ 8 ∷ 9 ∷ 10 ∷ 11 ∷ 12 ∷ 13 ∷ 14 ∷ 15 ∷ [])
    ∷ (14 ∷ 10 ∷ 4 ∷ 8 ∷ 9 ∷ 15 ∷ 13 ∷ 6 ∷ 1 ∷ 12 ∷ 0 ∷ 2 ∷ 11 ∷ 7 ∷ 5 ∷ 3 ∷ [])
    ∷ (11 ∷ 8 ∷ 12 ∷ 0 ∷ 5 ∷ 2 ∷ 15 ∷ 13 ∷ 10 ∷ 14 ∷ 3 ∷ 6 ∷ 7 ∷ 1 ∷ 9 ∷ 4 ∷ [])
    ∷ (7 ∷ 9 ∷ 3 ∷ 1 ∷ 13 ∷ 12 ∷ 11 ∷ 14 ∷ 2 ∷ 6 ∷ 5 ∷ 10 ∷ 4 ∷ 0 ∷ 15 ∷ 8 ∷ [])
    ∷ (9 ∷ 0 ∷ 5 ∷ 7 ∷ 2 ∷ 4 ∷ 10 ∷ 15 ∷ 14 ∷ 1 ∷ 11 ∷ 12 ∷ 6 ∷ 8 ∷ 3 ∷ 13 ∷ [])
    ∷ (2 ∷ 12 ∷ 6 ∷ 10 ∷ 0 ∷ 11 ∷ 8 ∷ 3 ∷ 4 ∷ 13 ∷ 7 ∷ 5 ∷ 15 ∷ 14 ∷ 1 ∷ 9 ∷ [])
    ∷ (12 ∷ 5 ∷ 1 ∷ 15 ∷ 14 ∷ 13 ∷ 4 ∷ 10 ∷ 0 ∷ 7 ∷ 6 ∷ 3 ∷ 9 ∷ 2 ∷ 8 ∷ 11 ∷ [])
    ∷ (13 ∷ 11 ∷ 7 ∷ 14 ∷ 12 ∷ 1 ∷ 3 ∷ 9 ∷ 5 ∷ 0 ∷ 15 ∷ 4 ∷ 8 ∷ 6 ∷ 2 ∷ 10 ∷ [])
    ∷ (6 ∷ 15 ∷ 14 ∷ 9 ∷ 11 ∷ 3 ∷ 0 ∷ 8 ∷ 12 ∷ 2 ∷ 13 ∷ 7 ∷ 1 ∷ 4 ∷ 10 ∷ 5 ∷ [])
    ∷ (10 ∷ 2 ∷ 8 ∷ 4 ∷ 7 ∷ 6 ∷ 1 ∷ 5 ∷ 15 ∷ 11 ∷ 9 ∷ 14 ∷ 3 ∷ 12 ∷ 13 ∷ 0 ∷ [])
    ∷ (0 ∷ 1 ∷ 2 ∷ 3 ∷ 4 ∷ 5 ∷ 6 ∷ 7 ∷ 8 ∷ 9 ∷ 10 ∷ 11 ∷ 12 ∷ 13 ∷ 14 ∷ 15 ∷ [])
    ∷ (14 ∷ 10 ∷ 4 ∷ 8 ∷ 9 ∷ 15 ∷ 13 ∷ 6 ∷ 1 ∷ 12 ∷ 0 ∷ 2 ∷ 11 ∷ 7 ∷ 5 ∷ 3 ∷ [])
    ∷ (11 ∷ 8 ∷ 12 ∷ 0 ∷ 5 ∷ 2 ∷ 15 ∷ 13 ∷ 10 ∷ 14 ∷ 3 ∷ 6 ∷ 7 ∷ 1 ∷ 9 ∷ 4 ∷ [])
    ∷ (7 ∷ 9 ∷ 3 ∷ 1 ∷ 13 ∷ 12 ∷ 11 ∷ 14 ∷ 2 ∷ 6 ∷ 5 ∷ 10 ∷ 4 ∷ 0 ∷ 15 ∷ 8 ∷ [])
    ∷ (9 ∷ 0 ∷ 5 ∷ 7 ∷ 2 ∷ 4 ∷ 10 ∷ 15 ∷ 14 ∷ 1 ∷ 11 ∷ 12 ∷ 6 ∷ 8 ∷ 3 ∷ 13 ∷ [])
    ∷ (2 ∷ 12 ∷ 6 ∷ 10 ∷ 0 ∷ 11 ∷ 8 ∷ 3 ∷ 4 ∷ 13 ∷ 7 ∷ 5 ∷ 15 ∷ 14 ∷ 1 ∷ 9 ∷ [])
    ∷ []

-- `_G`: the words of `v` at `a`, `b`, `c`, `d`, mixed with two words of the block.
unfoldable pub g : ℕ → ℕ → ℕ → ℕ → List ℕ → ℕ → ℕ → List ℕ → List ℕ
g a b c d m e f v =
    let va = u64 (get_or v a 0 + get_or v b 0 + bit_xor (get_or m e 0) (get_or c_512 f 0)) in
    let vd = rotr64 (bit_xor (get_or v d 0) va) 32 in
    let vc = u64 (get_or v c 0 + vd) in
    let vb = rotr64 (bit_xor (get_or v b 0) vc) 25 in
    let va2 = u64 (va + vb + bit_xor (get_or m f 0) (get_or c_512 e 0)) in
    let vd2 = rotr64 (bit_xor vd va2) 16 in
    let vc2 = u64 (vc + vd2) in
    let vb2 = rotr64 (bit_xor vb vc2) 11 in set (set (set (set v a va2) d vd2) c vc2) b vb2

-- `struct.unpack(">16Q", block)`, over `n` words.
unfoldable pub words_of : ℕ → Bytes → List ℕ
words_of zero block = []
words_of (suc n) block = from_be (take 8 block) ∷ words_of n (drop 8 block)

-- One round: the columns, then the diagonals.
unfoldable pub mix : List ℕ → List ℕ → List ℕ → List ℕ
unfolding g
mix m s v0 =
    let v1 = g 0 4 8 12 m (get_or s 0 0) (get_or s 1 0) v0 in
    let v2 = g 1 5 9 13 m (get_or s 2 0) (get_or s 3 0) v1 in
    let v3 = g 2 6 10 14 m (get_or s 4 0) (get_or s 5 0) v2 in
    let v4 = g 3 7 11 15 m (get_or s 6 0) (get_or s 7 0) v3 in
    let v5 = g 0 5 10 15 m (get_or s 8 0) (get_or s 9 0) v4 in
    let v6 = g 1 6 11 12 m (get_or s 10 0) (get_or s 11 0) v5 in
    let v7 = g 2 7 8 13 m (get_or s 12 0) (get_or s 13 0) v6 in
    g 3 4 9 14 m (get_or s 14 0) (get_or s 15 0) v7

-- `n` rounds from round `r` on.
unfoldable pub rounds : ℕ → ℕ → List ℕ → List ℕ → List ℕ
rounds zero r m v = v
rounds (suc n) r m v = rounds n (suc r) m (mix m (get_or sigma (r % 10) []) v)

-- The vector before the rounds.
unfoldable pub initial : List ℕ → List ℕ → ℕ → List ℕ
initial h salt t =
    h
    ++ bit_xor (get_or salt 0 0) (get_or c_512 0 0)
      ∷ bit_xor (get_or salt 1 0) (get_or c_512 1 0)
      ∷ bit_xor (get_or salt 2 0) (get_or c_512 2 0)
      ∷ bit_xor (get_or salt 3 0) (get_or c_512 3 0)
      ∷ bit_xor (t % 2 ^ 64) (get_or c_512 4 0)
      ∷ bit_xor (t % 2 ^ 64) (get_or c_512 5 0)
      ∷ bit_xor (t / 2 ^ 64 % 2 ^ 64) (get_or c_512 6 0)
      ∷ bit_xor (t / 2 ^ 64 % 2 ^ 64) (get_or c_512 7 0)
      ∷ []

-- The finalisation, over the words of `h` from `i` on.
unfoldable pub finalise : ℕ → List ℕ → List ℕ → List ℕ → List ℕ
finalise i [] v salt = []
finalise i (x ∷ h) v salt =
    bit_xor (bit_xor (bit_xor x (get_or v i 0)) (get_or v (i + 8) 0)) (get_or salt (i % 4) 0)
    ∷ finalise (suc i) h v salt

-- `_compress`, on a block of 128 bytes.
unfoldable pub compress : List ℕ → Bytes → List ℕ → ℕ → List ℕ
compress h block salt t = finalise 0 h (rounds 16 0 (words_of 16 block) (initial h salt t)) salt

abbrev pub salt_512 : List ℕ
salt_512 = 0 ∷ 0 ∷ 0 ∷ 0 ∷ []

-- The state of the loop over full blocks: the chain, the bit counter, the offset, and the rest of the data.
pub record Absorbed : Type 0 where
  pub chain : List ℕ
  pub t_counter : ℕ
  pub offset : ℕ
  pub rem : Bytes

-- The loop `while n - offset >= 128`, on fuel.
unfoldable pub absorb : ℕ → Absorbed → Absorbed
absorb zero s = s
absorb (suc fuel) s = elim (leb 128 (length s.rem)) [
  | true ↦ absorb fuel (record {
    chain = compress s.chain (take 128 s.rem) salt_512 (s.t_counter + 1024);
    t_counter = s.t_counter + 1024;
    offset = s.offset + 128;
    rem = drop 128 s.rem;
  })
  | false ↦ s
]

-- The loop `while len(pad) % 128 != 111`, on fuel.
unfoldable pub zero_pad : ℕ → Bytes → Bytes
zero_pad zero pad = pad
zero_pad (suc fuel) pad = elim (length pad % 128 == 111) [
  | true ↦ pad
  | false ↦ zero_pad fuel (pad ++ 0 ∷ [])
]

-- The padded rest; within 128 rounds the loop has met its condition.
unfoldable pub padded : Bytes → ℕ → Bytes
padded rem bits = zero_pad 128 (rem ++ 128 ∷ []) ++ (1 ∷ (to_be 8 0 ++ to_be 8 bits))

-- The blocks after the loop, by the length of the padded rest.
unfoldable pub finish : Absorbed → List ℕ
finish s =
    let rem_bits = length s.rem * 8 in
    let pad = padded s.rem (rem_bits + s.offset * 8) in
    let t = if rem_bits == 0 then 0 else s.t_counter + rem_bits in
    elim (length pad == 128) [
      | true ↦ compress s.chain pad salt_512 t
      | false ↦ compress (compress s.chain (take 128 pad) salt_512 t) (drop 128 pad) salt_512 0
    ]

-- `struct.pack(">8Q", *h)`
unfoldable pub pack : List ℕ → Bytes
pack [] = []
pack (x ∷ h) = to_be 8 x ++ pack h

abbrev pub start : Bytes → Absorbed
start bytes = record { chain = iv_512; t_counter = 0; offset = 0; rem = bytes }

-- `blake512`; `struct.pack` raises where the bit length has no 64-bit form.
unfoldable pub blake512 : Bytes → Result Bytes
blake512 bytes = do
  raise_if (leb (2 ^ 64) (length bytes * 8)) other_error
  ok (pack (finish (absorb (length bytes) (start bytes))))
