-- ===== src/Zk/Issuer/Roots.antt =====
-- `_compute_keccak_root` and `_compute_poseidon_root`.
use aca_py_did_kanon.Prelude.{
  ℕ, ◌+◌, ◌*◌, List, [], ◌∷◌, replicate, Bytes, Result, ok, err, value_error, ◌>>=◌,
}
use aca_py_did_kanon.Prelude.Dict.{keys, values}
use aca_py_did_kanon.Prelude.Hex.{from_hex, hex_digit}
use aca_py_did_kanon.Web3.{Web3}
use aca_py_did_kanon.Zk.Poseidon.{Constants}
use aca_py_did_kanon.Zk.MerkleKeccak
use aca_py_did_kanon.Zk.MerklePoseidon
use aca_py_did_kanon.Zk.Leaf.{felt_to_bytes32}
use aca_py_did_kanon.Zk.Issuer.State.{IssuerState}

-- `[bytes.fromhex(k) for k in ks]`
unfoldable pub from_hex_all : List Bytes → Result (List Bytes)
from_hex_all [] = ok []
from_hex_all (k ∷ ks) = do b ← from_hex k; bs ← from_hex_all ks; ok (b ∷ bs)

-- `int(h, 16)` on the hex digits that the active set holds.
unfoldable pub int16_acc : ℕ → Bytes → Result ℕ
int16_acc acc [] = ok acc
int16_acc acc (c ∷ cs) = do d ← hex_digit c; int16_acc (acc * 16 + d) cs

-- `int(h, 16)` of a text of digits; one with a prefix, a sign, white space or underscores is left out.
unfoldable pub int16 : Bytes → Result ℕ
int16 [] = err value_error
int16 (c ∷ cs) = int16_acc 0 (c ∷ cs)

unfoldable pub int16_all : List Bytes → Result (List ℕ)
int16_all [] = ok []
int16_all (h ∷ hs) = do x ← int16 h; xs ← int16_all hs; ok (x ∷ xs)

-- An empty set has the tree of one zero leaf.
unfoldable pub root_leaves : IssuerState → Result (List Bytes)
root_leaves st = elim (keys st.active) [
  | [] ↦ ok (replicate 32 0 ∷ [])
  | k ∷ ks ↦ from_hex_all (k ∷ ks)
]

unfoldable pub compute_keccak_root : Web3 → IssuerState → Result Bytes
unfolding root_leaves
compute_keccak_root w st = do
  leaves ← root_leaves st
  tree ← MerkleKeccak.new w.keccak leaves
  ok (MerkleKeccak.root tree)

abbrev pub poseidon_tree_depth : ℕ
poseidon_tree_depth = 26

unfoldable pub compute_poseidon_root : Constants → IssuerState → Result Bytes
compute_poseidon_root k st = do
  felts ← int16_all (values st.active)
  tree ← MerklePoseidon.new k poseidon_tree_depth felts
  ok (felt_to_bytes32 (MerklePoseidon.root k tree))
