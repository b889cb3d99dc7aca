-- ===== src/Prelude/Value.antt =====
-- Values of a dynamic language: what JSON and YAML texts stand for, floats aside. An object lists its
-- entries in order and holds a key once.
use mathlib.Core.Bool.{Bool, true, false}
use mathlib.Core.Option.{Option, none, some}
use Prim.Native.Nat.{zero, suc}
use mathlib.Core.List.{[], ◌∷◌}
use aca_py_did_kanon.Prelude.Tests.{if◌then◌else◌}
use aca_py_did_kanon.Prelude.ByteList.{Bytes, bytes_eq}
use aca_py_did_kanon.Prelude.Exceptions.{Result, ok, err, other_error}
use aca_py_did_kanon.Prelude.Text.{ℤ, pos, negsuc}

mutual
  pub data Value : Type 0 where
    null : Value
    boolean : Bool → Value
    number : ℤ → Value
    string : Bytes → Value
    array : Items → Value
    object : Fields → Value

  pub data Items : Type 0 where
    nil : Items
    cons : Value → Items → Items

  pub data Fields : Type 0 where
    end : Fields
    field : Bytes → Value → Fields → Fields

-- `bool(v)`
abbrev pub truthy : Value → Bool
truthy null = false
truthy (boolean b) = b
truthy (number (pos zero)) = false
truthy (number (pos (suc n))) = true
truthy (number (negsuc n)) = true
truthy (string []) = false
truthy (string (c ∷ cs)) = true
truthy (array nil) = false
truthy (array (cons v vs)) = true
truthy (object end) = false
truthy (object (field k v fs)) = true

-- `d.get(k)` on an object.
unfoldable pub get_field : Bytes → Fields → Value
get_field k end = null
get_field k (field j v fs) = let rest = get_field k fs in if bytes_eq j k then v else rest

-- `d.get(k, v)`
unfoldable pub get_field_or : Bytes → Value → Fields → Value
get_field_or k default end = default
get_field_or k default (field j v fs) =
    let rest = get_field_or k default fs in if bytes_eq j k then v else rest

-- `v.get(k)`: other values have no such method (AttributeError).
unfoldable pub get_of : Bytes → Value → Result Value
unfolding get_field
get_of k (object fs) = ok (get_field k fs)
get_of k null = err other_error
get_of k (boolean b) = err other_error
get_of k (number n) = err other_error
get_of k (string s) = err other_error
get_of k (array vs) = err other_error

-- `v or {}`, as the object that the code goes on with.
unfoldable pub object_or_empty : Value → Result Fields
object_or_empty (object fs) = ok fs
object_or_empty v = if truthy v then err other_error else ok end

-- `v or []` in a loop over objects: what it goes through. A text or an object would be gone through
-- by characters or keys, which have no entries to read.
unfoldable pub items_or_empty : Value → Result Items
items_or_empty (array vs) = ok vs
items_or_empty v = if truthy v then err other_error else ok nil

-- The text of `isinstance(v, str) and v`.
unfoldable pub text_of : Value → Option Bytes
text_of (string (c ∷ cs)) = some (c ∷ cs)
text_of v = none
