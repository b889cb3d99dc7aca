-- ===== src/Did/Resolver/Resolved.antt =====
-- did/resolver.py: the references of a resolved document.
use aca_py_did_kanon.Prelude.{
  ℕ, zero, suc, ◌+◌, ◌<◌, ◌≡◌, refl, sym, ap, ◌∙◌, subst, false, Bool-cases, ◌⊎◌, inl, inr, arith,
  Option, none, some, List, [], ◌∷◌, map, length, get_elem?, All, if◌then◌else◌, Bytes, bytes_eq,
  Option-cases, Result, ok, err, ok_inj, err_ne_ok, did_not_found, ◌>>=◌, >>=-eq-ok,
}
use aca_py_did_kanon.Prelude.Dict.{Dict, get, put, get-put}
use aca_py_did_kanon.Identifiers.{ParsedKanonDid, parse_kanon_did}
use aca_py_did_kanon.Contracts.DidRegistry.{DidDocument, VerificationMethod, resolve_did}
use aca_py_did_kanon.Did.Resolver.{
  Method, W3cDocument, key_fragment, fragments, methods, refs, to_w3c, active_document, read_caught,
  resolve,
}

some_inj : {a b : Bytes} → some a ≡ some b → a ≡ b
some_inj h = cc

none_ne_some : {a : Bytes} → none ≡ some a → ⊥
none_ne_some h = cc

-- The fragment of a position among `n` from `i` on.
abbrev IsFragment : Bytes → ℕ → ℕ → Bytes → Type 0
IsFragment did i n f = (j : ℕ) × (j < n) × (f ≡ key_fragment did (i + j))

-- What the table of fragments has is from before or of one of the methods.
get-fragments :
    (did : Bytes) (i : ℕ) (vms : List VerificationMethod) (ids : Dict Bytes) (r f : Bytes)
    → get r (fragments did i vms ids) ≡ some f
    → (get r ids ≡ some f) ⊎ IsFragment did i (length vms) f
unfolding fragments
get-fragments did i [] ids r f h = inl h
get-fragments did i (vm ∷ vms) ids r f h =
    elim (get-fragments did (suc i) vms (put vm.id (key_fragment did i) ids) r f h) [
      | inl put_before ↦
          let read : (if bytes_eq vm.id r then some (key_fragment did i) else get r ids) ≡ some f =
            sym (get-put vm.id r (key_fragment did i) ids) ∙ put_before in
          elim (Bool-cases (bytes_eq vm.id r)) [
            | inl same ↦
                let e : some (key_fragment did i) ≡ some f = rw same at read in
                inr (
                  0,
                  omega arith,
                  sym (some_inj e) ∙ ap (key_fragment did) {x = i} {y = i + 0} (omega arith),
                )
            | inr other ↦ inl (rw other at read)
          ]
      | inr (j, lt, e) ↦ inr (
        suc j,
        omega arith,
        e ∙ ap (key_fragment did) {x = suc i + j} {y = i + suc j} (omega arith),
      )
    ]

-- The fragment of a position is the id of the method there.
get-methods :
    (b58 : Bytes → Bytes) (did : Bytes) (i : ℕ) (vms : List VerificationMethod) (j : ℕ)
    → j < length vms
    → get_elem? (map (λ (m : Method). m.id) (methods b58 did i vms)) j
      ≡ some (key_fragment did (i + j))
unfolding methods
get-methods b58 did i [] j lt = absurd (omega arith)
get-methods b58 did i (vm ∷ vms) zero lt =
    ap (λ n. some (key_fragment did n)) {x = i} {y = i + 0} (omega arith)
get-methods b58 did i (vm ∷ vms) (suc j) lt =
    get-methods b58 did (suc i) vms j (omega arith)
    ∙ ap (λ n. some (key_fragment did n)) {x = suc i + j} {y = i + suc j} (omega arith)

-- A reference names a method of the document.
abbrev pub Names : W3cDocument → Bytes → Type 0
Names w f = (j : ℕ) × (get_elem? (map (λ (m : Method). m.id) w.verification_method) j ≡ some f)

module _ (b58 : Bytes → Bytes) (did : Bytes) (doc : DidDocument) where
  refs-Names :
      (rs : List Bytes)
      → All (Names (to_w3c b58 did doc)) (refs b58 (fragments did 0 doc.verification_methods []) rs)
  unfolding refs to_w3c get
  refs-Names [] = tt
  refs-Names (r ∷ rs) = elim (Option-cases (get r (fragments did 0 doc.verification_methods []))) [
    | inl e ↦ rw (e, refs) (refs-Names rs)
    | inr (f, e) ↦
        rw (e, refs)
          (named f (get-fragments did 0 doc.verification_methods [] r f e), refs-Names rs)
  ]
    where
      named :
          (f : Bytes)
          → (get {V = Bytes} r [] ≡ some f) ⊎ IsFragment did 0 (length doc.verification_methods) f
          → Names (to_w3c b58 did doc) f
      named f (inl h) = absurd (none_ne_some (sym nothing ∙ h))
        where
          nothing : get {V = Bytes} r [] ≡ none
          nothing = refl
      named f (inr (j, lt, e)) =
          (j, get-methods b58 did 0 doc.verification_methods j lt ∙ ap some (sym e))

read_caught-ok : {A : Type 0} (r : Result A) (a : A) → read_caught r ≡ ok a → r ≡ ok a
read_caught-ok (ok b) a h = h
read_caught-ok (err e) a h = absurd (err_ne_ok h)

active_document-ok :
    (b58 : Bytes → Bytes) (did : Bytes) (found : Option DidDocument) (w : W3cDocument)
    → active_document b58 did found ≡ ok w
    → (doc : DidDocument) × (found ≡ some doc)
      × (doc.deactivated ≡ false)
      × (w ≡ to_w3c b58 did doc)
unfolding active_document
active_document-ok b58 did none w h = absurd (err_ne_ok h)
active_document-ok b58 did (some doc) w h = elim (Bool-cases doc.deactivated) [
  | inl gone ↦ let e : err did_not_found ≡ ok w = rw gone at h in absurd (err_ne_ok e)
  | inr active ↦
      let e : ok (to_w3c b58 did doc) ≡ ok w = rw active at h in (doc, refl, active, sym (ok_inj e))
]

-- Every relationship of a document names its methods.
pub record IsClosed (w : W3cDocument) : Type 0 where
  pub authentication : All (Names w) w.authentication
  pub assertion_method : All (Names w) w.assertion_method
  pub capability_invocation : All (Names w) w.capability_invocation
  pub capability_delegation : All (Names w) w.capability_delegation
  pub key_agreement : All (Names w) w.key_agreement

to_w3c-IsClosed :
    (b58 : Bytes → Bytes) (did : Bytes) (doc : DidDocument) → IsClosed (to_w3c b58 did doc)
unfolding to_w3c
to_w3c-IsClosed b58 did doc = record {
  authentication = refs-Names b58 did doc doc.authentication;
  assertion_method = refs-Names b58 did doc doc.assertion_method;
  capability_invocation = refs-Names b58 did doc doc.capability_invocation;
  capability_delegation = refs-Names b58 did doc doc.capability_delegation;
  key_agreement = refs-Names b58 did doc doc.key_agreement;
}

-- What is resolved is the document that the registry has for a DID that parses, which is not
-- deactivated; and each of its references, in every relationship, is the id of one of its verification
-- methods.
pub resolve-IsClosed :
    (b58 : Bytes → Bytes) (registry : Result (Bytes → Result DidDocument)) (did : Bytes)
    (w : W3cDocument)
    → resolve b58 registry did ≡ ok w
    → (parsed : ParsedKanonDid) × (parse_kanon_did did ≡ some parsed)
      × (view : Bytes → Result DidDocument) × (registry ≡ ok view)
      × (doc : DidDocument) × (resolve_did view parsed.did ≡ ok (some doc))
      × (doc.deactivated ≡ false)
      × (w ≡ to_w3c b58 parsed.did doc)
      × IsClosed w
unfolding resolve
resolve-IsClosed b58 registry did w h = elim (Option-cases (parse_kanon_did did)) [
  | inl unparsed ↦
      let e : err did_not_found ≡ ok w = rw (unparsed, resolve) at h in absurd (err_ne_ok e)
  | inr (parsed, e) ↦
      let run = rw (e, resolve) at h in
      let (found, e1, h1) =
        >>=-eq-ok (read_caught (registry >>= λ view. resolve_did view parsed.did)) _ run in
      let (view, e2, h2) = >>=-eq-ok registry _ (read_caught-ok _ found e1) in
      let (doc, e3, active, same) = active_document-ok b58 parsed.did found w h1 in
      (
        parsed,
        e,
        view,
        e2,
        doc,
        h2 ∙ ap ok e3,
        active,
        same,
        subst IsClosed (sym same) (to_w3c-IsClosed b58 parsed.did doc),
      )
]
