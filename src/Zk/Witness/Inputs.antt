-- ===== src/Zk/Witness/Inputs.antt =====
-- `_flatten` and `_qualify_input`: the inputs as flat lists of numbers under dotted names.
use aca_py_did_kanon.Prelude.{
  true, false, List, [], ◌∷◌, ◌++◌, Bytes, Result, ok, err, type_error, ◌>>=◌,
}
use aca_py_did_kanon.Prelude.Dict.{Dict, put}
use aca_py_did_kanon.Prelude.Hex.{codes}
use aca_py_did_kanon.Prelude.Text.{ℤ, pos, int_of}
use aca_py_did_kanon.Prelude.Value.{
  Value, null, boolean, number, string, array, object, Items, nil, cons, Fields, end, field,
}

-- `_flatten`: what is no list is given to `int`.
unfoldable mutual
  pub flatten : Value → Result (List ℤ)
  flatten (array vs) = flatten_items vs
  flatten (number n) = ok (n ∷ [])
  flatten (boolean true) = ok (pos 1 ∷ [])
  flatten (boolean false) = ok (pos 0 ∷ [])
  flatten (string s) = do n ← int_of s; ok (n ∷ [])
  flatten null = err type_error
  flatten (object fs) = err type_error

  pub flatten_items : Items → Result (List ℤ)
  flatten_items nil = ok []
  flatten_items (cons v vs) = do flat ← flatten v; rest ← flatten_items vs; ok (flat ++ rest)

-- `k if not prefix else f"{prefix}.{k}"`
abbrev pub dotted : Bytes → Bytes → Bytes
dotted [] k = k
dotted (c ∷ cs) k = (c ∷ cs) ++ (codes "." ++ k)

-- `_qualify_input`, with the dict after it.
unfoldable mutual
  pub qualify_input : Bytes → Value → Dict (List ℤ) → Result (Dict (List ℤ))
  qualify_input prefix (object fs) out = qualify_fields prefix fs out
  qualify_input prefix (array vs) out = do flat ← flatten (array vs); ok (put prefix flat out)
  qualify_input prefix (number n) out = do flat ← flatten (number n); ok (put prefix flat out)
  qualify_input prefix (boolean b) out = do flat ← flatten (boolean b); ok (put prefix flat out)
  qualify_input prefix (string s) out = do flat ← flatten (string s); ok (put prefix flat out)
  qualify_input prefix null out = err type_error

  pub qualify_fields : Bytes → Fields → Dict (List ℤ) → Result (Dict (List ℤ))
  qualify_fields prefix end out = ok out
  qualify_fields prefix (field k v fs) out = do
    next ← qualify_input (dotted prefix k) v out
    qualify_fields prefix fs next
