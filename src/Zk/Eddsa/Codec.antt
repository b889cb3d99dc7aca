-- ===== src/Zk/Eddsa/Codec.antt =====
-- zk/eddsa.py: encode_zk_signature and decode_zk_signature.
use aca_py_did_kanon.Prelude.{
  ℕ, ◌*◌, ◌^◌, ◌<◌, ◌≡◌, refl, sym, ap, ◌∙◌, arith, ◌++◌, lt→ltb, length, take, drop, take-append,
  drop-append, drop-drop, take-all, length-append, All, All-append, Bytes, ok,
}
use aca_py_did_kanon.Prelude.Hex.{IsByte}
use aca_py_did_kanon.Prelude.Words.{
  to_be, from_be, to_bytes_be, length-to_be, to_be-IsByte, from_be-to_be,
}
use aca_py_did_kanon.Zk.Eddsa.Base64.{b64encode, b64decode, decode_from-b64encode}
use aca_py_did_kanon.Zk.Eddsa.{KanonZkSignature, encode_zk_signature, decode_zk_signature}

to_bytes_be-fits : (v : ℕ) → v < 256 ^ 32 → to_bytes_be 32 v ≡ ok (to_be 32 v)
unfolding to_bytes_be
to_bytes_be-fits v h = rw (lt→ltb v (256 ^ 32) h) refl

-- The 96 bytes of a signature.
abbrev packed : ℕ → ℕ → ℕ → Bytes
packed x y s = to_be 32 x ++ (to_be 32 y ++ to_be 32 s)

length-packed : (x y s : ℕ) → length (packed x y s) ≡ 32 * 3
length-packed x y s = omega (
  arith,
  length-append (to_be 32 x) (to_be 32 y ++ to_be 32 s),
  length-append (to_be 32 y) (to_be 32 s),
  length-to_be 32 x,
  length-to_be 32 y,
  length-to_be 32 s,
)

packed-IsByte : (x y s : ℕ) → All IsByte (packed x y s)
packed-IsByte x y s =
    All-append IsByte (to_be 32 x) _ (to_be-IsByte 32 x)
      (All-append IsByte (to_be 32 y) (to_be 32 s) (to_be-IsByte 32 y) (to_be-IsByte 32 s))

encoded :
    (x y s : ℕ)
    → x < 256 ^ 32
    → y < 256 ^ 32
    → s < 256 ^ 32
    → encode_zk_signature (record { r8_x = x; r8_y = y; s = s }) ≡ ok (b64encode (packed x y s))
unfolding encode_zk_signature
encoded x y s hx hy hs =
    rw (to_bytes_be-fits x hx, to_bytes_be-fits y hy, to_bytes_be-fits s hs) refl

-- The three numbers stand one after the other.
unpacked :
    (x y s : ℕ)
    → (take 32 (packed x y s) ≡ to_be 32 x)
      × (take 32 (drop 32 (packed x y s)) ≡ to_be 32 y)
      × (drop 32 (drop 32 (packed x y s)) ≡ to_be 32 s)
unpacked x y s =
    let tail : drop 32 (packed x y s) ≡ to_be 32 y ++ to_be 32 s =
      drop-append (to_be 32 x) _ 32 (length-to_be 32 x) in
    (
      take-append (to_be 32 x) _ 32 (length-to_be 32 x),
      ap (take 32) tail ∙ take-append (to_be 32 y) _ 32 (length-to_be 32 y),
      ap (drop 32) tail ∙ drop-append (to_be 32 y) _ 32 (length-to_be 32 y),
    )

decoded :
    (x y s : ℕ)
    → x < 256 ^ 32
    → y < 256 ^ 32
    → s < 256 ^ 32
    → decode_zk_signature (b64encode (packed x y s)) ≡ ok (record { r8_x = x; r8_y = y; s = s })
unfolding decode_zk_signature b64decode
decoded x y s hx hy hs =
    let (first, second, third) = unpacked x y s in
    let last : take 32 (drop 64 (packed x y s)) ≡ to_be 32 s =
      ap (take 32) (sym (drop-drop 32 32 (packed x y s)) ∙ third)
      ∙ take-all (to_be 32 s) 32 (length-to_be 32 s) in
    let read_x : from_be (take 32 (packed x y s)) ≡ x = ap from_be first ∙ from_be-to_be 32 x hx in
    let read_y : from_be (take 32 (drop 32 (packed x y s))) ≡ y =
      ap from_be second ∙ from_be-to_be 32 y hy in
    let read_s : from_be (take 32 (drop 64 (packed x y s))) ≡ s =
      ap from_be last ∙ from_be-to_be 32 s hs in
    rw (decode_from-b64encode 32 (packed x y s) (length-packed x y s) (packed-IsByte x y s))
      (rw (length-packed x y s) (rw (read_x, read_y, read_s) refl))

-- A signature whose three numbers are below 2^256 is encoded, and decoding gives it back.
pub decode_zk_signature-encode :
    (sig : KanonZkSignature)
    → sig.r8_x < 256 ^ 32
    → sig.r8_y < 256 ^ 32
    → sig.s < 256 ^ 32
    → (text : Bytes) × (encode_zk_signature sig ≡ ok text) × (decode_zk_signature text ≡ ok sig)
decode_zk_signature-encode sig hx hy hs = (
  b64encode (packed sig.r8_x sig.r8_y sig.s),
  encoded sig.r8_x sig.r8_y sig.s hx hy hs,
  decoded sig.r8_x sig.r8_y sig.s hx hy hs,
)
