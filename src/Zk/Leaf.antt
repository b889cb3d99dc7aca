-- ===== src/Zk/Leaf.antt =====
-- zk/zk_issuer.py, the leaf primitives: `derive_leaf`, the felt conversions, `compute_zk_leaf`.
mod Tests
use aca_py_did_kanon.Prelude.{
  ℕ, ◌+◌, ◌%◌, ◌^◌, ◌<◌, ◌≡◌, refl, ◌∙◌, Bool, true, false, not, List, [], ◌∷◌, ◌++◌, map, arith,
  ◌==◌, if◌then◌else◌, length, length-map, drop, Bytes, Result, ok, err, value_error, ◌>>=◌, ◌>>◌,
  raise_if, All, ap,
}
use aca_py_did_kanon.Prelude.Hex.{codes, from_hex, to_hex, lower, starts_with, IsByte}
use aca_py_did_kanon.Prelude.Words.{from_be, to_be, length-to_be, to_be-IsByte, from_be-to_be}
use aca_py_did_kanon.Web3.{Web3}
use aca_py_did_kanon.Contracts.Convert.{BytesLike, raw, text}
use aca_py_did_kanon.Zk.Poseidon.{Constants, bn254_prime, poseidon_hash}
use aca_py_did_kanon.Zk.Poseidon.Range.{IsFelt, FitsArity, poseidon_hash-IsFelt, map_mod-IsFelt}

abbrev pub leaf_tag : ℕ
leaf_tag = 1

-- `s[2:] if s.lower().startswith("0x") else s`
unfoldable pub strip_0x : Bytes → Bytes
strip_0x s = if starts_with (codes "0x") (lower s) then drop 2 s else s

-- The 32 bytes of a credId, which `derive_leaf` and `cred_id_to_felt` both read so.
unfoldable pub cred_bytes : BytesLike → Result Bytes
unfolding strip_0x
cred_bytes (text s) = do
  raise_if (not (length (strip_0x s) == 64)) value_error
  from_hex (strip_0x s)
cred_bytes (raw b) = do raise_if (not (length b == 32)) value_error; ok b

-- `_cred_def_id_bytes`
unfoldable pub cred_def_id_bytes : BytesLike → Result Bytes
unfolding strip_0x
cred_def_id_bytes value = do
  b ← elim value [ text s ↦ from_hex (strip_0x s) | raw b ↦ ok b ]
  raise_if (not (length b == 32)) value_error
  ok b

unfoldable pub felt_to_bytes32 : ℕ → Bytes
felt_to_bytes32 felt = to_be 32 (felt % bn254_prime)

unfoldable pub cred_id_to_felt : BytesLike → Result ℕ
cred_id_to_felt cred_id = do b ← cred_bytes cred_id; ok (from_be b % bn254_prime)

unfoldable pub derive_leaf : Web3 → BytesLike → Result Bytes
derive_leaf w cred_id = do b ← cred_bytes cred_id; ok (w.keccak (w.keccak b))

unfoldable pub compute_zk_leaf : Constants → BytesLike → BytesLike → List ℕ → Result ℕ
compute_zk_leaf k cred_def_id cred_id attributes = do
  raise_if (not (length attributes == 16)) value_error
  cd_felt ← cred_id_to_felt cred_def_id
  cr_felt ← cred_id_to_felt cred_id
  attr_hash ← poseidon_hash k (map (λ a. a % bn254_prime) attributes)
  poseidon_hash k (leaf_tag ∷ cd_felt ∷ cr_felt ∷ attr_hash ∷ [])

pub length-felt_to_bytes32 : (x : ℕ) → length (felt_to_bytes32 x) ≡ 32
unfolding felt_to_bytes32
length-felt_to_bytes32 x = length-to_be 32 (x % bn254_prime)

pub felt_to_bytes32-IsByte : (x : ℕ) → All IsByte (felt_to_bytes32 x)
unfolding felt_to_bytes32
felt_to_bytes32-IsByte x = to_be-IsByte 32 (x % bn254_prime)

-- Writing a field element as 32 bytes and reading it as a credId gives it back.
pub cred_id_to_felt-felt_to_bytes32 :
    (x : ℕ) → IsFelt x → cred_id_to_felt (raw (felt_to_bytes32 x)) ≡ ok x
unfolding cred_id_to_felt cred_bytes
cred_id_to_felt-felt_to_bytes32 x f =
    let full : (length (felt_to_bytes32 x) == 32) ≡ true =
      let l = length-felt_to_bytes32 x in ground arith in
    let small : x % bn254_prime ≡ x = omega arith in
    let back : from_be (felt_to_bytes32 x) ≡ x =
      unfold felt_to_bytes32 in (from_be-to_be 32 (x % bn254_prime) (omega arith) ∙ small) in
    rw (full, back) (ap ok small)

-- A leaf over 16 attributes and two 32-byte identifiers is always a field element.
pub compute_zk_leaf-IsFelt :
    (k : Constants) (cd cid : Bytes) (attributes : List ℕ)
    → FitsArity k 4
    → FitsArity k 16
    → length cd ≡ 32
    → length cid ≡ 32
    → length attributes ≡ 16
    → (x : ℕ) × (compute_zk_leaf k (raw cd) (raw cid) attributes ≡ ok x) × IsFelt x
unfolding compute_zk_leaf cred_id_to_felt cred_bytes
compute_zk_leaf-IsFelt k cd cid attributes f4 f16 lcd lcid la =
    let felts = map (λ (a : ℕ). a % bn254_prime) attributes in
    let sixteen : length felts ≡ 16 = omega (arith, length-map attributes (λ a. a % bn254_prime)) in
    let wide : FitsArity k (length felts) = rw sixteen f16 in
    let (h, eh, fh) = poseidon_hash-IsFelt k felts (omega arith) (omega arith) wide in
    let inputs = leaf_tag ∷ from_be cd % bn254_prime ∷ from_be cid % bn254_prime ∷ h ∷ [] in
    let (x, ex, fx) = poseidon_hash-IsFelt k inputs (omega arith) (omega arith) f4 in
    let width : (length attributes == 16) ≡ true = ground arith in
    let full_cd : (length cd == 32) ≡ true = ground arith in
    let full_cid : (length cid == 32) ≡ true = ground arith in
    (x, rw (width, full_cd, full_cid, eh) ex, fx)
