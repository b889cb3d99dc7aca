-- ===== src/Zk/Eddsa/Honest.antt =====
-- zk/eddsa.py: a signature that the code makes is accepted by the code.
use Prim.Native.Nat.{bit_and}
use aca_py_did_kanon.Prelude.{
  ℕ, ◌+◌, ◌*◌, ◌/◌, ◌%◌, ◌<◌, ◌≡◌, refl, sym, ap, ◌∙◌, subst, true, false, not, ◌&&◌, arith, [],
  ◌∷◌, ◌++◌, leb, ◌==◌, length, get_or, set, take, drop, Bytes, Result, ok, value_error, ok_inj,
  >>=-eq-ok, raise_if,
}
use mathlib.Core.Path.{ap₂}
use aca_py_did_kanon.Prelude.Bits.{bit_and-0xF8}
use aca_py_did_kanon.Prelude.Words.{from_le}
use aca_py_did_kanon.Zk.Poseidon.{Constants, poseidon_hash}
use aca_py_did_kanon.Zk.Blake1.{blake512}
use aca_py_did_kanon.Zk.BabyJubjub.{Point, Curve, sub_order, mul}
use aca_py_did_kanon.Zk.BabyJubjub.Multiples.{
  IsSubgroup, plus, add-eq-plus, plus-zero, times, times-In, times-add, times-mul, times-identity,
  mul-eq-times,
}
use aca_py_did_kanon.Zk.IssuerKey.{IssuerKey}
use aca_py_did_kanon.Zk.Eddsa.{
  KanonZkSignature, prune, felt_to_le32, private_bytes, restore_issuer_key, sign_poseidon,
  is_identity, is_refused, checked_equation, verify_poseidon,
}

first_byte : (buf : Bytes) (v w : ℕ) → v % 8 ≡ 0 → from_le (set (set buf 0 v) 31 w) % 8 ≡ 0
unfolding from_le
first_byte [] v w h = refl
first_byte (b ∷ buf) v w h = omega arith

-- The scalar of a pruned buffer is a multiple of the cofactor.
prune_multiple : (buf pruned : Bytes) → prune buf ≡ ok pruned → from_le pruned % 8 ≡ 0
unfolding prune
prune_multiple buf pruned h =
    let (_, _, h1) = >>=-eq-ok (raise_if (not (length buf == 32)) value_error) _ h in
    subst (λ p. from_le p % 8 ≡ 0) (ok_inj h1)
      (first_byte buf (bit_and (get_or buf 0 0) 0xF8) _ (bit_and-0xF8 (get_or buf 0 0)))

-- The challenge of a signature.
abbrev challenge_of : Curve → Constants → ℕ → Point → Point → Result ℕ
challenge_of c k leaf r8 a = poseidon_hash k (r8.0 ∷ r8.1 ∷ a.0 ∷ a.1 ∷ leaf % c.p ∷ [])

-- What the two functions compute from one key: the scalar `s`, the public point and the signature.
record Signing (c : Curve) (k : Constants) (leaf : ℕ) (key : IssuerKey) (sig : KanonZkSignature)
    : Type 0 where
  s : ℕ
  r : ℕ
  challenge : ℕ
  multiple : s % 8 ≡ 0
  public_point : mul c c.base8 (s / 8) ≡ ok (key.a_x, key.a_y)
  nonce_point : mul c c.base8 r ≡ ok (sig.r8_x, sig.r8_y)
  hashed : challenge_of c k leaf (sig.r8_x, sig.r8_y) (key.a_x, key.a_y) ≡ ok challenge
  response : sig.s ≡ (r + challenge * s) % sub_order c

signed :
    (c : Curve) (k : Constants) (private_key_hex : Bytes) (leaf : ℕ) (key : IssuerKey)
    (sig : KanonZkSignature)
    → restore_issuer_key c private_key_hex ≡ ok key
    → sign_poseidon c k private_key_hex leaf ≡ ok sig
    → Signing c k leaf key sig
unfolding restore_issuer_key sign_poseidon
signed c k private_key_hex leaf key sig restored made =
    let (sk, e1, h1) = >>=-eq-ok (private_bytes private_key_hex) _ made in
    let (h, e2, h2) = >>=-eq-ok (blake512 sk) _ h1 in
    let (pruned, e3, h3) = >>=-eq-ok (prune (take 32 h)) _ h2 in
    let (a, e4, h4) = >>=-eq-ok (mul c c.base8 (from_le pruned / 8)) _ h3 in
    let (r_buf, e5, h5) = >>=-eq-ok (blake512 (take 32 (drop 32 h) ++ felt_to_le32 c leaf)) _ h4 in
    let (r8, e6, h6) = >>=-eq-ok (mul c c.base8 (from_le r_buf % sub_order c)) _ h5 in
    let (challenge, e7, h7) =
      >>=-eq-ok (poseidon_hash k (r8.0 ∷ r8.1 ∷ a.0 ∷ a.1 ∷ leaf % c.p ∷ [])) _ h6 in
    let (sk', d1, g1) = >>=-eq-ok (private_bytes private_key_hex) _ restored in
    let (h', d2, g2) = >>=-eq-ok (blake512 sk') _ g1 in
    let (pruned', d3, g3) = >>=-eq-ok (prune (take 32 h')) _ g2 in
    let (a', d4, g4) = >>=-eq-ok (mul c c.base8 (from_le pruned' / 8)) _ g3 in
    let same_sk : sk' ≡ sk = ok_inj (sym d1 ∙ e1) in
    let same_h : h' ≡ h = ok_inj (sym d2 ∙ (ap blake512 same_sk ∙ e2)) in
    let same_pruned : pruned' ≡ pruned =
      ok_inj (sym d3 ∙ (ap (λ b. prune (take 32 b)) same_h ∙ e3)) in
    let same_a : a' ≡ a =
      ok_inj (sym d4 ∙ (ap (λ b. mul c c.base8 (from_le b / 8)) same_pruned ∙ e4)) in
    let public : (key.a_x, key.a_y) ≡ a =
      sym (ap (λ (m : IssuerKey). (m.a_x, m.a_y)) (ok_inj g4)) ∙ same_a in
    let nonce : (sig.r8_x, sig.r8_y) ≡ r8 =
      sym (ap (λ (m : KanonZkSignature). (m.r8_x, m.r8_y)) (ok_inj h7)) in
    record {
      s = from_le pruned;
      r = from_le r_buf % sub_order c;
      challenge = challenge;
      multiple = prune_multiple (take 32 h) pruned e3;
      public_point = e4 ∙ ap ok (sym public);
      nonce_point = e6 ∙ ap ok (sym nonce);
      hashed = ap₂ (challenge_of c k leaf) nonce public ∙ e7;
      response = sym (ap (λ (m : KanonZkSignature). m.s) (ok_inj h7));
    }

scaled_sum :
    (r challenge a l u q : ℕ)
    → challenge * 8 ≡ u + q * (8 * l)
    → r + u * a + 8 * q * a * l ≡ r + challenge * (8 * a)
scaled_sum r challenge a l u q e =
    let m : challenge * 8 * a ≡ (u + q * (8 * l)) * a = ap (λ t. t * a) e in grind arith

scaled :
    (r challenge a l order : ℕ)
    → order ≡ 8 * l
    → 0 < order
    → r + challenge * 8 % order * a + 8 * (challenge * 8 / order) * a * l ≡ r + challenge * (8 * a)
scaled r challenge a l order e pos =
    scaled_sum r challenge a l (challenge * 8 % order) (challenge * 8 / order) (
      subst (λ o. challenge * 8 ≡ challenge * 8 % order + challenge * 8 / order * o) e
        (omega arith))

module _ {c : Curve} {In : Point → Type 0} (G : IsSubgroup c In)
    (annihilated : times G (sub_order c) c.base8 ≡ (0, 1)) where
  -- Multiples of the base point depend on the scalar modulo the subgroup order.
  times-period : (n m : ℕ) → times G (n + m * sub_order c) c.base8 ≡ times G n c.base8
  times-period n m =
      times-add G n (m * sub_order c) c.base8 G.base
      ∙ (ap (plus G (times G n c.base8)) (
            times-mul G m (sub_order c) c.base8 G.base
            ∙ (ap (times G m) annihilated ∙ times-identity G m))
          ∙ plus-zero G (times G n c.base8) (times-In G n c.base8 G.base))

  times-mod : (n : ℕ) → 0 < sub_order c → times G (n % sub_order c) c.base8 ≡ times G n c.base8
  times-mod n pos =
      sym (times-period (n % sub_order c) (n / sub_order c))
      ∙ ap (λ k. times G k c.base8) {x = n % sub_order c + n / sub_order c * sub_order c} {y = n}
          (omega arith)

  -- The two sides of the equation, for `s = 8 * a` and the challenge times the cofactor.
  equation_holds :
      (r challenge a : ℕ)
      → c.order ≡ 8 * sub_order c
      → 0 < sub_order c
      → plus G (times G r c.base8) (times G (challenge * 8 % c.order) (times G a c.base8))
        ≡ times G ((r + challenge * (8 * a)) % sub_order c) c.base8
  equation_holds r challenge a whole pos =
      let x = challenge * 8 % c.order in
      let q = challenge * 8 / c.order in
      ap (plus G (times G r c.base8)) (sym (times-mul G x a c.base8 G.base))
      ∙ (sym (times-add G r (x * a) c.base8 G.base)
          ∙ (sym (times-period (r + x * a) (8 * q * a))
              ∙ (ap (λ k. times G k c.base8) {x = r + x * a + 8 * q * a * sub_order c}
                    {y = r + challenge * (8 * a)}
                    (scaled r challenge a (sub_order c) c.order whole (omega arith))
                  ∙ sym (times-mod (r + challenge * (8 * a)) pos))))

of_multiple : (s : ℕ) → s % 8 ≡ 0 → s ≡ 8 * (s / 8)
of_multiple s h = omega arith

eq_refl : (p : Point) → (p.0 == p.0 && p.1 == p.1) ≡ true
eq_refl p = ground arith

same_point : (p q : Point) → p ≡ q → (p.0 == q.0 && p.1 == q.1) ≡ true
same_point p q h = subst (λ (r : Point). (p.0 == r.0 && p.1 == r.1) ≡ true) h (eq_refl p)

module _ {c : Curve} {In : Point → Type 0} (G : IsSubgroup c In) (k : Constants) (leaf : ℕ)
    (key : IssuerKey) (sig : KanonZkSignature) where
  -- A product that was computed is the multiple.
  product : (p q : Point) (n : ℕ) → In p → mul c p n ≡ ok q → q ≡ times G n p
  product p q n hp h = ok_inj (sym h ∙ mul-eq-times G n p hp)

  accepted :
      Signing c k leaf key sig
      → c.order ≡ 8 * sub_order c
      → 0 < sub_order c
      → times G (sub_order c) c.base8 ≡ (0, 1)
      → checked_equation c k (key.a_x, key.a_y) leaf sig ≡ ok true
  unfolding checked_equation
  accepted w whole pos annihilated =
      let public : (key.a_x, key.a_y) ≡ times G (w.s / 8) c.base8 =
        product c.base8 (key.a_x, key.a_y) (w.s / 8) G.base w.public_point in
      let nonce : (sig.r8_x, sig.r8_y) ≡ times G w.r c.base8 =
        product c.base8 (sig.r8_x, sig.r8_y) w.r G.base w.nonce_point in
      let public_In : In (key.a_x, key.a_y) =
        subst In (sym public) (times-In G (w.s / 8) c.base8 G.base) in
      let nonce_In : In (sig.r8_x, sig.r8_y) =
        subst In (sym nonce) (times-In G w.r c.base8 G.base) in
      let x = w.challenge * 8 % c.order in
      let term_In : In (times G x (key.a_x, key.a_y)) = times-In G x (key.a_x, key.a_y) public_In in
      let scalar : sig.s ≡ (w.r + w.challenge * (8 * (w.s / 8))) % sub_order c =
        w.response
        ∙ ap (λ s. (w.r + w.challenge * s) % sub_order c) {x = w.s} {y = 8 * (w.s / 8)}
            (of_multiple w.s w.multiple) in
      let equation : times G sig.s c.base8
          ≡ plus G (sig.r8_x, sig.r8_y) (times G x (key.a_x, key.a_y)) =
        ap (λ n. times G n c.base8) scalar
        ∙ (sym (equation_holds G annihilated w.r w.challenge (w.s / 8) whole pos)
            ∙ ap₂ (plus G) (sym nonce) (ap (times G x) (sym public))) in
      rw w.hashed (
        rw
          (
            mul-eq-times G sig.s c.base8 G.base,
            mul-eq-times G x (key.a_x, key.a_y) public_In,
            add-eq-plus G (sig.r8_x, sig.r8_y) (times G x (key.a_x, key.a_y)) nonce_In term_In,
          )
          (ap ok (same_point _ _ equation)))

  not_refused :
      Signing c k leaf key sig
      → 0 < sub_order c
      → (sig.s == 0) ≡ false
      → is_identity c (sig.r8_x, sig.r8_y) ≡ false
      → is_identity c (key.a_x, key.a_y) ≡ false
      → is_refused c (key.a_x, key.a_y) sig ≡ false
  unfolding is_refused
  not_refused w pos s_nonzero nonce_proper public_proper =
      let public_In : In (key.a_x, key.a_y) =
        subst In (sym (product c.base8 (key.a_x, key.a_y) (w.s / 8) G.base w.public_point))
          (times-In G (w.s / 8) c.base8 G.base) in
      let nonce_In : In (sig.r8_x, sig.r8_y) =
        subst In (sym (product c.base8 (sig.r8_x, sig.r8_y) w.r G.base w.nonce_point))
          (times-In G w.r c.base8 G.base) in
      let small : leb (sub_order c) sig.s ≡ false =
        below (w.r + w.challenge * w.s) sig.s w.response pos in
      rw
        (
          small,
          s_nonzero,
          nonce_proper,
          public_proper,
          G.on_curve (sig.r8_x, sig.r8_y) nonce_In,
          G.on_curve (key.a_x, key.a_y) public_In,
        )
        refl
    where
      below : (n s : ℕ) {l : ℕ} → s ≡ n % l → 0 < l → leb l s ≡ false
      below n s h pos = ground arith

-- A signature that sign_poseidon makes with a key is accepted by verify_poseidon under the public
-- coordinates that restore_issuer_key gives for this key, unless S is 0 or R8 or the public key is the
-- identity, which the verifier refuses. The curve's order is eight times the subgroup order, the
-- multiples of the base point lie in a set on which the sum is that of a group, and the subgroup order
-- takes the base point to the identity.
pub verify_poseidon-sign :
    {c : Curve} {In : Point → Type 0} (G : IsSubgroup c In) (k : Constants)
    (private_key_hex : Bytes) (leaf : ℕ) (key : IssuerKey) (sig : KanonZkSignature)
    → c.order ≡ 8 * sub_order c
    → 0 < sub_order c
    → times G (sub_order c) c.base8 ≡ (0, 1)
    → restore_issuer_key c private_key_hex ≡ ok key
    → sign_poseidon c k private_key_hex leaf ≡ ok sig
    → (sig.s == 0) ≡ false
    → is_identity c (sig.r8_x, sig.r8_y) ≡ false
    → is_identity c (key.a_x, key.a_y) ≡ false
    → verify_poseidon c k (key.a_x, key.a_y) leaf sig ≡ ok true
unfolding verify_poseidon
verify_poseidon-sign G k private_key_hex leaf key sig whole pos annihilated restored made s_nonzero
      nonce_proper public_proper =
    let w = signed _ k private_key_hex leaf key sig restored made in
    rw (not_refused G k leaf key sig w pos s_nonzero nonce_proper public_proper)
      (accepted G k leaf key sig w whole pos annihilated)
