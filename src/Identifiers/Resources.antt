-- ===== src/Identifiers/Resources.antt =====
-- Ids of resources are parsed back to the issuer's DID.
use aca_py_did_kanon.Prelude.{
  ℕ, ◌≡◌, refl, ap, subst, true, false, none, some, [], ◌∷◌, ◌++◌, length, All, All-append, Bytes,
}
use aca_py_did_kanon.Prelude.Hex.{codes, starts_with}
use aca_py_did_kanon.Identifiers.{
  Scope, org, user, ParsedKanonDid, org_did, user_did, strip_prefix, is_hex, take_hex, take_handle,
  parse_subject, span, take_group, stops_path, is_end, did_of, parse_rest, parse_kanon_did,
  issuer_did_of, schema_resource_id, cred_def_resource_id,
}

abbrev pub IsHex : ℕ → Type 0
IsHex c = is_hex c ≡ true

-- A character of a path.
abbrev pub IsPlain : ℕ → Type 0
IsPlain c = stops_path c ≡ false

take_hex-append : (ds t : Bytes) → All IsHex ds → take_hex (length ds) (ds ++ t) ≡ some (ds, t)
unfolding take_hex
take_hex-append [] t a = refl
take_hex-append (c ∷ ds) t a = rw (take_hex-append ds t a.1, a.0, take_hex) refl

take_handle-append :
    (ds t : Bytes)
    → All IsHex ds
    → length ds ≡ 64
    → take_handle ((codes "0x" ++ ds) ++ t) ≡ some (codes "0x" ++ ds, t)
unfolding take_handle strip_prefix
take_handle-append ds t a l =
    let digits : take_hex 64 (ds ++ t) ≡ some (ds, t) =
      subst (λ n. take_hex n (ds ++ t) ≡ some (ds, t)) l (take_hex-append ds t a) in
    rw (digits, take_handle) refl

parse_subject-did :
    (scope : Scope) (ds t : Bytes)
    → All IsHex ds
    → length ds ≡ 64
    → parse_subject (did_of scope (codes "0x" ++ ds) ++ t) ≡ some (scope, codes "0x" ++ ds, t)
unfolding parse_subject org_did user_did starts_with strip_prefix
parse_subject-did org ds t a l = rw (take_handle-append ds t a l, parse_subject) refl
parse_subject-did user ds t a l = rw (take_handle-append ds t a l, parse_subject) refl

span-plain : (xs : Bytes) → All IsPlain xs → span stops_path xs ≡ (xs, [])
unfolding span
span-plain [] a = refl
span-plain (c ∷ xs) a = rw (a.0, span-plain xs a.1, span) refl

parse_rest-path :
    (scope : Scope) (handle xs : Bytes)
    → All IsPlain xs
    → (parsed : ParsedKanonDid) × (parse_rest scope handle (b'/' ∷ xs) ≡ some parsed)
      × (parsed.did ≡ did_of scope handle)
      × (parsed.path ≡ some (b'/' ∷ xs))
unfolding parse_rest take_group is_end
parse_rest-path scope handle xs a =
    let parsed : ParsedKanonDid = record {
      did = did_of scope handle;
      scope = scope;
      org_id = elim scope [ org ↦ some handle | user ↦ none ];
      user_hex = elim scope [ org ↦ none | user ↦ some handle ];
      path = some (b'/' ∷ xs);
      query = none;
      fragment = none;
    } in
    (parsed, rw (span-plain xs a, parse_rest, take_group) refl, refl, refl)

issuer_did_of-path :
    (scope : Scope) (ds xs : Bytes)
    → All IsHex ds
    → length ds ≡ 64
    → All IsPlain xs
    → issuer_did_of (did_of scope (codes "0x" ++ ds) ++ (b'/' ∷ xs))
      ≡ some (did_of scope (codes "0x" ++ ds))
unfolding issuer_did_of parse_kanon_did
issuer_did_of-path scope ds xs a l plain =
    let (parsed, e, did, path) = parse_rest-path scope (codes "0x" ++ ds) xs plain in
    rw (parse_subject-did scope ds (b'/' ∷ xs) a l, e, issuer_did_of, parse_kanon_did) (ap some did)

named_path :
    (kind name version : Bytes)
    → All IsPlain kind
    → All IsPlain name
    → All IsPlain version
    → All IsPlain (codes "anoncreds/v0" ++ (kind ++ (name ++ (codes "/" ++ version))))
named_path kind name version k n v =
    All-append IsPlain (codes "anoncreds/v0") _
      (
        refl,
        (refl, (refl, (refl, (refl, (refl, (refl, (refl, (refl, (refl, (refl, (refl, tt))))))))))),
      )
      (All-append IsPlain kind _ k (All-append IsPlain name _ n (refl, v)))

-- For an issuer of either scope with a handle of 64 hex digits, and names without `#` and `?`, the
-- ids of its schemas and credential definitions are parsed back to the issuer's DID.
pub issuer_did_of-resource :
    (scope : Scope) (ds name version : Bytes)
    → All IsHex ds
    → length ds ≡ 64
    → All IsPlain name
    → All IsPlain version
    → (issuer_did_of (schema_resource_id (did_of scope (codes "0x" ++ ds)) name version)
        ≡ some (did_of scope (codes "0x" ++ ds)))
      × (issuer_did_of (cred_def_resource_id (did_of scope (codes "0x" ++ ds)) name version)
          ≡ some (did_of scope (codes "0x" ++ ds)))
unfolding schema_resource_id cred_def_resource_id
issuer_did_of-resource scope ds name version a l n v = (
  issuer_did_of-path scope ds _ a l (
      named_path (codes "/SCHEMA/") name version
        (refl, (refl, (refl, (refl, (refl, (refl, (refl, (refl, tt)))))))) n v),
  issuer_did_of-path scope ds _ a l (
      named_path (codes "/CLAIM_DEF/") name version
        (refl, (refl, (refl, (refl, (refl, (refl, (refl, (refl, (refl, (refl, (refl, tt))))))))))) n
        v),
)
