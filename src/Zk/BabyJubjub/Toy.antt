-- ===== src/Zk/BabyJubjub/Toy.antt =====
-- A small curve with 40 points, and the five multiples of its base point.
use aca_py_did_kanon.Prelude.{◌≡◌, refl, ok}
use aca_py_did_kanon.Zk.BabyJubjub.{Curve, add, mul, baby_jubjub, in_curve}
use aca_py_did_kanon.Prelude.{true}

abbrev pub small : Curve
small = record { p = 29; a = 1; d = 2; order = 40; base8 = (5, 23) }

adds : add small (5, 23) (9, 18) ≡ ok (20, 18)
unfolding add
adds = refl

multiplies : mul small (5, 23) 9 ≡ ok (24, 23)
unfolding mul add
multiplies = refl

on_curve : in_curve baby_jubjub baby_jubjub.base8 ≡ true
unfolding in_curve
on_curve = refl

seven_times :
    mul baby_jubjub baby_jubjub.base8 7
    ≡ ok (
      20092560661213339045022877747484245238324772779820628739268223482659246842641,
      12112450042127193446189577552007703839818242727902437791835414514847797088033,
    )
unfolding mul add
seven_times = refl
