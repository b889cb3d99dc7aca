-- ===== src/Web3/Toy.antt =====
-- A hash for the tests: 32 bytes that depend on the input.
use aca_py_did_kanon.Prelude.{
  ℕ, ◌+◌, ◌*◌, ◌%◌, ◌<◌, [], ◌∷◌, arith, replicate, length-replicate, All-replicate, Bytes,
}
use aca_py_did_kanon.Prelude.Hex.{IsByte}
use aca_py_did_kanon.Web3.{Web3}

unfoldable pub checksum : Bytes → ℕ
checksum [] = 7
checksum (b ∷ bs) = (b + 31 * checksum bs) % 251

pub checksum_lt : (bs : Bytes) → checksum bs < 256
unfolding checksum
checksum_lt [] = omega arith
checksum_lt (b ∷ bs) = omega arith

abbrev pub toy_digest : Bytes → Bytes
toy_digest b = replicate 32 (checksum b)

abbrev pub toy : Web3
toy = record {
  keccak = toy_digest;
  keccak_text = toy_digest;
  length-keccak = λ b. length-replicate 32 (checksum b);
  length-keccak_text = λ b. length-replicate 32 (checksum b);
  keccak-IsByte = λ b. All-replicate IsByte 32 (checksum b) (checksum_lt b);
  keccak_text-IsByte = λ b. All-replicate IsByte 32 (checksum b) (checksum_lt b);
}
