-- ===== src/Zk/BabyJubjub/Tests.antt =====
-- The point operations on the small curve.
use aca_py_did_kanon.Prelude.{◌≡◌, arith}
use aca_py_did_kanon.Zk.BabyJubjub.{baby_jubjub, add}
use aca_py_did_kanon.Zk.BabyJubjub.Formula.{textbook_sum, add-eq-textbook_sum}

add-eq-textbook_sum_example :
    add baby_jubjub baby_jubjub.base8 (0, 1) ≡ textbook_sum baby_jubjub baby_jubjub.base8 (0, 1)
add-eq-textbook_sum_example = add-eq-textbook_sum baby_jubjub baby_jubjub.base8 (0, 1) (omega arith)
