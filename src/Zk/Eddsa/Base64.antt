-- ===== src/Zk/Eddsa/Base64.antt =====
-- `base64.b64encode`, and `base64.b64decode` as it is called here: characters outside the alphabet are
-- skipped, and what follows the padding is not read.
use mathlib.Core.Path.{ap₂}
use aca_py_did_kanon.Prelude.{
  ℕ, zero, suc, ◌+◌, ◌-◌, ◌*◌, ◌/◌, ◌%◌, ◌<◌, ◌≡◌, refl, ap, ◌∙◌, Bool, true, false, ◌&&◌, arith,
  Option, none, some, [], ◌∷◌, ltb, leb, ◌==◌, if◌then◌else◌, length, All, Bytes, Result, ok, err,
  value_error, ◌>>=◌,
}
use aca_py_did_kanon.Prelude.Hex.{IsByte}

-- The alphabet.
unfoldable pub b64_char : ℕ → ℕ
b64_char n =
    if ltb n 26
    then b'A' + n
    else if ltb n 52
    then b'a' + (n - 26)
    else if ltb n 62
    then b'0' + (n - 52)
    else if n == 62
    then b'+'
    else b'/'

unfoldable pub b64encode : Bytes → Bytes
b64encode [] = []
b64encode (a ∷ []) = b64_char (a / 4) ∷ b64_char (a % 4 * 16) ∷ b'=' ∷ b'=' ∷ []
b64encode (a ∷ b ∷ []) =
    b64_char (a / 4) ∷ b64_char (a % 4 * 16 + b / 16) ∷ b64_char (b % 16 * 4) ∷ b'=' ∷ []
b64encode (a ∷ b ∷ c ∷ bs) =
    b64_char (a / 4)
    ∷ b64_char (a % 4 * 16 + b / 16)
    ∷ b64_char (b % 16 * 4 + c / 64)
    ∷ b64_char (c % 64)
    ∷ b64encode bs

unfoldable pub b64_digit : ℕ → Option ℕ
b64_digit c =
    if leb b'A' c && leb c b'Z'
    then some (c - b'A')
    else if leb b'a' c && leb c b'z'
    then some (c - b'a' + 26)
    else if leb b'0' c && leb c b'9'
    then some (c - b'0' + 52)
    else if c == b'+'
    then some 62
    else if c == b'/'
    then some 63
    else none

-- Where a reader stands in a group of four: the bits that are left over.
pub data Quad : Type 0 where
  first : Quad
  second : ℕ → Quad
  third : ℕ → Quad
  fourth : ℕ → Quad

-- The end of the input within a group is an error.
abbrev pub at_end : Quad → Result Bytes
at_end first = ok []
at_end (second n) = err value_error
at_end (third n) = err value_error
at_end (fourth n) = err value_error

-- Whether padding so far completes the group.
abbrev pub completes : Quad → ℕ → Bool
completes first pads = false
completes (second n) pads = false
completes (third n) pads = leb 2 pads
completes (fourth n) pads = leb 1 pads

abbrev pub with_byte : ℕ → Result Bytes → Result Bytes
with_byte b rest = do bs ← rest; ok (b ∷ bs)

unfoldable pub decode_from : Quad → ℕ → Bytes → Result Bytes
decode_from q pads [] = at_end q
decode_from q pads (c ∷ cs) = elim (c == b'=') [
  | true ↦ elim (completes q (suc pads)) [ true ↦ ok [] | false ↦ decode_from q (suc pads) cs ]
  | false ↦ elim (b64_digit c) [
    | none ↦ decode_from q pads cs
    | some d ↦ elim q [
      | first ↦ decode_from (second d) 0 cs
      | second n ↦ with_byte (n * 4 + d / 16) (decode_from (third (d % 16)) 0 cs)
      | third n ↦ with_byte (n * 16 + d / 4) (decode_from (fourth (d % 4)) 0 cs)
      | fourth n ↦ with_byte (n * 64 + d) (decode_from first 0 cs)
    ]
  ]
]

unfoldable pub b64decode : Bytes → Result Bytes
unfolding decode_from
b64decode = decode_from first 0

b64_digit-b64_char : (n : ℕ) → n < 64 → b64_digit (b64_char n) ≡ some n
unfolding b64_digit b64_char
b64_digit-b64_char n h = ground arith

b64_char-ne-pad : (n : ℕ) → (b64_char n == b'=') ≡ false
unfolding b64_char
b64_char-ne-pad n = ground arith

-- One character of the alphabet, in each state.
step_first :
    (n pads : ℕ) (cs : Bytes)
    → n < 64
    → decode_from first pads (b64_char n ∷ cs) ≡ decode_from (second n) 0 cs
unfolding decode_from
step_first n pads cs h = rw (b64_char-ne-pad n, decode_from) (rw (b64_digit-b64_char n h) refl)

step_second :
    (m n : ℕ) (cs : Bytes)
    → n < 64
    → decode_from (second m) 0 (b64_char n ∷ cs)
      ≡ with_byte (m * 4 + n / 16) (decode_from (third (n % 16)) 0 cs)
unfolding decode_from
step_second m n cs h = rw (b64_char-ne-pad n, decode_from) (rw (b64_digit-b64_char n h) refl)

step_third :
    (m n : ℕ) (cs : Bytes)
    → n < 64
    → decode_from (third m) 0 (b64_char n ∷ cs)
      ≡ with_byte (m * 16 + n / 4) (decode_from (fourth (n % 4)) 0 cs)
unfolding decode_from
step_third m n cs h = rw (b64_char-ne-pad n, decode_from) (rw (b64_digit-b64_char n h) refl)

step_fourth :
    (m n : ℕ) (cs : Bytes)
    → n < 64
    → decode_from (fourth m) 0 (b64_char n ∷ cs) ≡ with_byte (m * 64 + n) (decode_from first 0 cs)
unfolding decode_from
step_fourth m n cs h = rw (b64_char-ne-pad n, decode_from) (rw (b64_digit-b64_char n h) refl)

decode_from-nil : decode_from first 0 [] ≡ ok []
unfolding decode_from
decode_from-nil = refl

-- What was encoded is decoded, in whole groups of three bytes.
pub decode_from-b64encode :
    (k : ℕ) (bs : Bytes)
    → length bs ≡ k * 3
    → All IsByte bs
    → decode_from first 0 (b64encode bs) ≡ ok bs
unfolding b64encode
decode_from-b64encode k [] e h = decode_from-nil
decode_from-b64encode k (a ∷ []) e h = absurd (omega arith)
decode_from-b64encode k (a ∷ b ∷ []) e h = absurd (omega arith)
decode_from-b64encode zero (a ∷ b ∷ c ∷ bs) e h = absurd (omega arith)
decode_from-b64encode (suc k) (a ∷ b ∷ c ∷ bs) e (ha, (hb, (hc, hs))) =
    step_first (a / 4) 0 _ (omega arith)
    ∙ (step_second (a / 4) (a % 4 * 16 + b / 16) _ (omega arith)
        ∙ ap₂ with_byte {x = a / 4 * 4 + (a % 4 * 16 + b / 16) / 16} {y = a} (omega arith) (
            ap
              (λ n.
                decode_from (third n) 0
                  (b64_char (b % 16 * 4 + c / 64) ∷ b64_char (c % 64) ∷ b64encode bs))
              {x = (a % 4 * 16 + b / 16) % 16} {y = b / 16} (omega arith)
            ∙ (step_third (b / 16) (b % 16 * 4 + c / 64) _ (omega arith)
                ∙ ap₂ with_byte {x = b / 16 * 16 + (b % 16 * 4 + c / 64) / 4} {y = b} (omega arith)
                    (ap (λ n. decode_from (fourth n) 0 (b64_char (c % 64) ∷ b64encode bs))
                        {x = (b % 16 * 4 + c / 64) % 4} {y = c / 64} (omega arith)
                      ∙ (step_fourth (c / 64) (c % 64) _ (omega arith)
                          ∙ ap₂ with_byte {x = c / 64 * 64 + c % 64} {y = c} (omega arith)
                              (decode_from-b64encode k bs (omega arith) hs))))))
