-- ===== src/Zk/Eddsa/Tests.antt =====
-- Signatures on the small curve.
use aca_py_did_kanon.Prelude.{◌≡◌, refl, true, arith, sym, ◌∙◌, ok_inj, replicate, Bytes, ok, ◌++◌}
use aca_py_did_kanon.Prelude.Hex.{
  codes, lower, lower_char, from_hex, is_space, hex_digit, starts_with,
}
use aca_py_did_kanon.Prelude.Words.{to_be, to_le, from_le, from_be, from_be_acc}
use aca_py_did_kanon.Zk.Poseidon.{
  poseidon_hash, add_constants, dot, index, is_full, mds_multiply, pow5, round,
  rounds as poseidon_rounds, s_box,
}
use aca_py_did_kanon.Zk.Poseidon.Toy.{tables}
use aca_py_did_kanon.Zk.Blake1.{
  blake512, pack, finish, padded, zero_pad, absorb, compress, finalise, g, initial, mix, rounds,
  words_of,
}
use aca_py_did_kanon.Zk.BabyJubjub.{add, mul, mul_loop, modinv, inverse_loop}
use aca_py_did_kanon.Zk.BabyJubjub.Toy.{small}
use aca_py_did_kanon.Zk.BabyJubjub.ToyGroup.{i1, small-IsSubgroup}
use aca_py_did_kanon.Zk.BabyJubjub.Multiples.{times, mul-eq-times}
use aca_py_did_kanon.Zk.IssuerKey.{IssuerKey}
use aca_py_did_kanon.Zk.Eddsa.{
  KanonZkSignature, prune, private_bytes, felt_to_le32, restore_issuer_key, sign_poseidon,
  verify_poseidon, encode_zk_signature, decode_zk_signature,
}
use aca_py_did_kanon.Zk.Eddsa.Honest.{verify_poseidon-sign}
use aca_py_did_kanon.Zk.Eddsa.Codec.{decode_zk_signature-encode}

-- 32 bytes in hex.
abbrev secret : Bytes
secret = codes "0x" ++ replicate 64 b'1'

abbrev key : IssuerKey
key = record { private_key_hex = secret; a_x = 20; a_y = 18 }

abbrev sig : KanonZkSignature
sig = record { r8_x = 24; r8_y = 23; s = 1 }

restores : restore_issuer_key small secret ≡ ok key
unfolding restore_issuer_key private_bytes lower lower_char from_hex is_space hex_digit starts_with
    blake512 prune pack finish padded zero_pad absorb compress finalise g initial mix rounds
    words_of to_be from_le from_be from_be_acc inverse_loop modinv mul_loop mul add
restores = refl

signs : sign_poseidon small tables secret 8 ≡ ok sig
unfolding sign_poseidon private_bytes lower lower_char from_hex is_space hex_digit starts_with
    blake512 prune pack finish padded zero_pad absorb compress finalise g initial mix rounds
    words_of to_be from_le from_be from_be_acc inverse_loop modinv mul_loop mul add felt_to_le32
    to_le poseidon_hash add_constants dot index is_full mds_multiply pow5 round poseidon_rounds
    s_box
signs = refl

five_times : mul small (5, 23) 5 ≡ ok (0, 1)
unfolding mul add
five_times = refl

annihilates : times small-IsSubgroup 5 (5, 23) ≡ (0, 1)
annihilates = ok_inj (sym (mul-eq-times small-IsSubgroup 5 (5, 23) (i1, refl)) ∙ five_times)

verify_poseidon-sign_example : verify_poseidon small tables (20, 18) 8 sig ≡ ok true
verify_poseidon-sign_example =
    verify_poseidon-sign small-IsSubgroup tables secret 8 key sig refl (omega arith) annihilates
      restores signs refl refl refl

decode_zk_signature-encode_example :
    (text : Bytes) × (encode_zk_signature sig ≡ ok text) × (decode_zk_signature text ≡ ok sig)
decode_zk_signature-encode_example =
    decode_zk_signature-encode sig (omega arith) (omega arith) (omega arith)
