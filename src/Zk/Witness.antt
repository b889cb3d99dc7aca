-- ===== src/Zk/Witness.antt =====
-- zk/witness.py: the witness calculator. A circuit that was loaded, with its WASM instance, is an
-- argument: a record of its sizes and exports, which act on a state.
pub mod Inputs
pub mod Limbs
pub mod Memory
pub mod Signals
mod Tests
use Prim.Native.Nat.{bit_xor}
use aca_py_did_kanon.Prelude.{
  ℕ, zero, suc, ◌+◌, ◌-◌, ◌*◌, ◌/◌, ◌%◌, ◌^◌, Bool, true, false, Option, none, some, List, [], ◌∷◌,
  ◌++◌, ltb, leb, ◌==◌, if◌then◌else◌, length, get_or, replicate, Bytes, Error, Result, ok, err,
  value_error, witness_error, ◌>>=◌, ◌>>◌, raise_if,
}
use mathlib.Core.List.{reverse}
use aca_py_did_kanon.Prelude.Dict.{Dict}
use aca_py_did_kanon.Prelude.Text.{ℤ, pos, negsuc}
use aca_py_did_kanon.Prelude.Value.{Value, Fields, end}
use aca_py_did_kanon.Zk.Witness.Inputs.{qualify_input, qualify_fields}

-- `_fnv_hash`, from the state `h`, on ASCII texts.
unfoldable pub fnv_from : ℕ → Bytes → Result ℕ
fnv_from h [] = ok h
fnv_from h (b ∷ bs) =
    let rest = fnv_from (bit_xor h b * 0x100000001B3 % 2 ^ 64) bs in
    if ltb b 128 then rest else err value_error

unfoldable pub fnv_hash : Bytes → Result ℕ
unfolding fnv_from
fnv_hash = fnv_from 0xCBF29CE484222325

-- The first loop of `_to_array32`: a round drops 32 bits, so `rem` rounds are enough.
unfoldable pub limbs : ℕ → ℕ → List ℕ → List ℕ
limbs zero rem arr = arr
limbs (suc fuel) rem arr =
    let rest = limbs fuel (rem / 2 ^ 32) (rem % 2 ^ 32 ∷ arr) in if rem == 0 then arr else rest

-- `_to_array32`
unfoldable pub to_array32 : ℕ → ℕ → List ℕ
unfolding limbs
to_array32 rem size = let arr : List ℕ = limbs rem rem [] in replicate (size - length arr) 0 ++ arr

-- `int(n) & 0xFFFFFFFF`
unfoldable pub mask32 : ℤ → ℕ
mask32 (pos n) = n % 2 ^ 32
mask32 (negsuc n) = 2 ^ 32 - 1 - n % 2 ^ 32

unfoldable pub from_array32_acc : ℕ → List ℤ → ℕ
from_array32_acc res [] = res
from_array32_acc res (n ∷ ns) = from_array32_acc (res * 2 ^ 32 + mask32 n) ns

-- `_from_array32`
unfoldable pub from_array32 : List ℤ → ℕ
unfolding from_array32_acc mask32
from_array32 = from_array32_acc 0

-- A word as the signed i32 of the same bits.
unfoldable pub to_i32 : ℕ → ℤ
to_i32 w = if leb (2 ^ 31) w then negsuc (2 ^ 32 - w - 1) else pos w

-- `raw % prime`, which is not negative.
unfoldable pub mod_prime : ℤ → ℕ → ℕ
mod_prime (pos n) prime = n % prime
mod_prime (negsuc n) prime = prime - 1 - n % prime

pub record Circuit (S : Type 0) : Type 0 where
  pub n32 : ℕ
  pub prime : ℕ
  pub witness_size : ℕ
  pub input_size : ℕ
  pub init : Bool → S → Result S
  -- `none` stands for a negative size.
  pub get_input_signal_size : S → ℕ → ℕ → Result (Option ℕ)
  pub write_shared : ℕ → ℤ → S → S
  pub read_shared : S → ℕ → ℤ
  -- Calls that may raise through `exception_handler`.
  pub set_input_signal : ℕ → ℕ → ℕ → S → Result S
  pub get_witness : ℕ → S → Result S

module _ {S : Type 0} (c : Circuit S) where
  -- The loop over `j`: word `n32 - 1 - j` goes to place `j`. The words come in the order of `j`.
  unfoldable pub write_words : ℕ → List ℕ → S → S
  unfolding to_i32
  write_words j [] s = s
  write_words j (w ∷ words) s = write_words (suc j) words (c.write_shared j (to_i32 w) s)

  -- One value of a signal.
  unfoldable pub set_value : ℕ → ℕ → ℕ → ℤ → S → Result S
  unfolding mod_prime to_array32 write_words
  set_value h_msb h_lsb i raw s =
      c.set_input_signal h_msb h_lsb i
        (write_words 0 (reverse (to_array32 (mod_prime raw c.prime) c.n32)) s)

  -- `enumerate(flat)`, from index `i` on.
  unfoldable pub set_values : ℕ → ℕ → ℕ → List ℤ → S → Result S
  set_values h_msb h_lsb i [] s = ok s
  set_values h_msb h_lsb i (raw ∷ flat) s = do
    next ← set_value h_msb h_lsb i raw s
    set_values h_msb h_lsb (suc i) flat next

  -- The checks on the size of a signal.
  unfoldable pub check_size : Option ℕ → List ℤ → Result (Unit {0})
  check_size none flat = err witness_error
  check_size (some size) flat =
      if ltb (length flat) size
      then err witness_error
      else if ltb size (length flat)
      then err witness_error
      else ok tt

  unfoldable pub set_signal : Bytes → List ℤ → S → Result S
  unfolding fnv_hash check_size set_values
  set_signal k flat s = do
    h ← fnv_hash k
    size ← c.get_input_signal_size s (h / 2 ^ 32 % 2 ^ 32) (h % 2 ^ 32)
    check_size size flat
    set_values (h / 2 ^ 32 % 2 ^ 32) (h % 2 ^ 32) 0 flat s

  -- The loop over `qualified`, with the counter of inputs.
  unfoldable pub set_signals : Dict (List ℤ) → ℕ → S → Result (ℕ × S)
  set_signals [] count s = ok (count, s)
  set_signals ((k, flat) ∷ qualified) count s = do
    next ← set_signal k flat s
    set_signals qualified (count + length flat) next

  -- The words at `j`, …, `n - 1` of the shared memory.
  unfoldable pub read_words : S → ℕ → ℕ → List ℤ
  read_words s j zero = []
  read_words s j (suc n) = c.read_shared s j ∷ read_words s (suc j) n

  -- The last loop: witness values `i` and on.
  unfoldable pub read_witness : ℕ → ℕ → S → Result (List ℕ)
  unfolding read_words from_array32
  read_witness zero i s = ok []
  read_witness (suc n) i s = do
    next ← c.get_witness i s
    rest ← read_witness n (suc i) next
    ok (from_array32 (reverse (read_words next 0 c.n32)) ∷ rest)

  unfoldable pub calculate_witness : Fields → Bool → S → Result (List ℕ)
  unfolding set_signals read_witness
  calculate_witness inputs sanity_check s = do
    started ← c.init sanity_check s
    qualified ← qualify_fields [] inputs []
    counted ← set_signals qualified 0 started
    raise_if (ltb counted.0 c.input_size) witness_error
    read_witness c.witness_size 0 counted.1
