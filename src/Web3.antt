-- ===== src/Web3.antt =====
-- What the program takes from web3: the hash of bytes and of a text, with the size of a digest.
pub mod Toy
use aca_py_did_kanon.Prelude.{ℕ, ◌≡◌, length, All, Bytes}
use aca_py_did_kanon.Prelude.Hex.{IsByte}

pub record Web3 : Type 0 where
  -- `Web3.keccak(data)` and `Web3.keccak(text=…)`
  pub keccak : Bytes → Bytes
  pub keccak_text : Bytes → Bytes
  pub length-keccak : (b : Bytes) → length (keccak b) ≡ 32
  pub length-keccak_text : (t : Bytes) → length (keccak_text t) ≡ 32
  pub keccak-IsByte : (b : Bytes) → All IsByte (keccak b)
  pub keccak_text-IsByte : (t : Bytes) → All IsByte (keccak_text t)
