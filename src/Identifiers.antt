-- ===== src/Identifiers.antt =====
-- identifiers.py: the parser of did:kanon URLs and the ids of AnonCreds resources. The regular
-- expression is the parser it stands for: after the subject, each optional group takes as much as it
-- can, and the end may be before a last line feed.
pub mod Resources
mod Tests
use aca_py_did_kanon.Prelude.{
  ℕ, zero, suc, Bool, true, false, ◌&&◌, ◌||◌, Option, none, some, List, [], ◌∷◌, ◌++◌, leb, ◌==◌,
  if◌then◌else◌, Bytes,
}
use aca_py_did_kanon.Prelude.Hex.{codes, starts_with}

pub data Scope : Type 0 where
  org : Scope
  user : Scope

pub record ParsedKanonDid : Type 0 where
  pub did : Bytes
  pub scope : Scope
  pub org_id : Option Bytes
  pub user_hex : Option Bytes
  pub path : Option Bytes
  pub query : Option Bytes
  pub fragment : Option Bytes

unfoldable pub org_did : Bytes → Bytes
org_did org_id = codes "did:kanon:org:" ++ org_id

unfoldable pub user_did : Bytes → Bytes
user_did hex_handle =
    codes "did:kanon:user:"
    ++ (if starts_with (codes "0x") hex_handle then hex_handle else codes "0x" ++ hex_handle)

-- What follows a prefix.
unfoldable pub strip_prefix : Bytes → Bytes → Option Bytes
strip_prefix [] t = some t
strip_prefix (p ∷ ps) [] = none
strip_prefix (p ∷ ps) (c ∷ cs) = let rest = strip_prefix ps cs in if p == c then rest else none

abbrev pub is_hex : ℕ → Bool
is_hex c = (leb b'0' c && leb c b'9') || ((leb b'a' c && leb c b'f') || (leb b'A' c && leb c b'F'))

-- `[0-9a-fA-F]{n}`
unfoldable pub take_hex : ℕ → Bytes → Option (Bytes × Bytes)
take_hex zero t = some ([], t)
take_hex (suc n) [] = none
take_hex (suc n) (c ∷ cs) =
    let rest : Option (Bytes × Bytes) = elim (take_hex n cs) [
      | none ↦ none
      | some r ↦ some (c ∷ r.0, r.1)
    ] in
    if is_hex c then rest else none

-- `0x[0-9a-fA-F]{64}`
unfoldable pub take_handle : Bytes → Option (Bytes × Bytes)
unfolding strip_prefix take_hex
take_handle t = elim (strip_prefix (codes "0x") t) [
  | none ↦ none
  | some digits ↦ elim (take_hex 64 digits) [ none ↦ none | some r ↦ some (codes "0x" ++ r.0, r.1) ]
]

-- The subject: the scope, the handle, and the rest of the URL.
unfoldable pub parse_subject : Bytes → Option (Scope × Bytes × Bytes)
unfolding take_handle
parse_subject t = elim (strip_prefix (codes "did:kanon:") t) [
  | none ↦ none
  | some subject ↦ elim (strip_prefix (codes "org:") subject) [
    | some rest ↦ elim (take_handle rest) [ none ↦ none | some r ↦ some (org, r.0, r.1) ]
    | none ↦ elim (strip_prefix (codes "user:") subject) [
      | none ↦ none
      | some rest ↦ elim (take_handle rest) [ none ↦ none | some r ↦ some (user, r.0, r.1) ]
    ]
  ]
]

-- The longest run of characters that do not stop.
unfoldable pub span : (ℕ → Bool) → Bytes → Bytes × Bytes
span stops [] = ([], [])
span stops (c ∷ cs) = let r = span stops cs in if stops c then ([], c ∷ cs) else (c ∷ r.0, r.1)

-- An optional group that starts with one character.
unfoldable pub take_group : ℕ → (ℕ → Bool) → Bytes → Option Bytes × Bytes
unfolding span
take_group first stops [] = (none, [])
take_group first stops (c ∷ cs) =
    let r = span stops cs in if c == first then (some (c ∷ r.0), r.1) else (none, c ∷ cs)

abbrev pub stops_path : ℕ → Bool
stops_path c = c == b'#' || c == b'?'

abbrev pub stops_query : ℕ → Bool
stops_query c = c == b'#'

-- `.` matches all but a line feed.
abbrev pub stops_fragment : ℕ → Bool
stops_fragment c = c == 10

-- `$`
unfoldable pub is_end : Bytes → Bool
is_end [] = true
is_end (c ∷ []) = c == 10
is_end (c ∷ d ∷ cs) = false

abbrev pub did_of : Scope → Bytes → Bytes
did_of org handle = org_did handle
did_of user handle = user_did handle

unfoldable pub parse_rest : Scope → Bytes → Bytes → Option ParsedKanonDid
unfolding take_group
parse_rest scope handle t =
    let path = take_group b'/' stops_path t in
    let query = take_group b'?' stops_query path.1 in
    let fragment = take_group b'#' stops_fragment query.1 in
    if is_end fragment.1
    then some (record {
      did = did_of scope handle;
      scope = scope;
      org_id = elim scope [ org ↦ some handle | user ↦ none ];
      user_hex = elim scope [ org ↦ none | user ↦ some handle ];
      path = path.0;
      query = query.0;
      fragment = fragment.0;
    })
    else none

unfoldable pub parse_kanon_did : Bytes → Option ParsedKanonDid
unfolding parse_subject parse_rest
parse_kanon_did did_url = elim (parse_subject did_url) [
  | none ↦ none
  | some (scope, handle, rest) ↦ parse_rest scope handle rest
]

unfoldable pub issuer_did_of : Bytes → Option Bytes
unfolding parse_kanon_did
issuer_did_of resource_id = elim (parse_kanon_did resource_id) [
  | none ↦ none
  | some parsed ↦ some parsed.did
]

abbrev pub anoncreds_prefix : Bytes
anoncreds_prefix = codes "/anoncreds/v0"

unfoldable pub schema_resource_id : Bytes → Bytes → Bytes → Bytes
schema_resource_id issuer_did name version =
    issuer_did ++ (anoncreds_prefix ++ (codes "/SCHEMA/" ++ (name ++ (codes "/" ++ version))))

unfoldable pub cred_def_resource_id : Bytes → Bytes → Bytes → Bytes
cred_def_resource_id issuer_did schema_tag tag =
    issuer_did ++ (anoncreds_prefix ++ (codes "/CLAIM_DEF/" ++ (schema_tag ++ (codes "/" ++ tag))))
