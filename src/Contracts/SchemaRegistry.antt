-- ===== src/Contracts/SchemaRegistry.antt =====
-- contracts/schema_registry.py, `KanonSchemaRegistry`: registration and the views.
use aca_py_did_kanon.Prelude.{
  ℕ, Bool, false, Option, none, some, ◌++◌, Bytes, Result, ok, client_error, ◌>>=◌,
}
use aca_py_did_kanon.Prelude.Hex.{codes, to_hex}
use aca_py_did_kanon.Contracts.Convert.{BytesLike, to_bytes32}
use aca_py_did_kanon.Contracts.MerkleState.{Receipt}
use aca_py_did_kanon.Contracts.Transaction.{Node, send}
use aca_py_did_kanon.Contracts.Views.{or_on_revert, stamped}

-- The arguments of `registerSchema`.
pub record SchemaArgs : Type 0 where
  pub org_id : Bytes
  pub schema_id : Bytes
  pub schema_hash : Bytes
  pub uri : Bytes

unfoldable pub register_schema :
    Bool → Node SchemaArgs → BytesLike → BytesLike → BytesLike → Bytes → Result Receipt
register_schema has_key node org_id schema_id schema_hash uri = do
  oid ← to_bytes32 org_id
  sid ← to_bytes32 schema_id
  hash ← to_bytes32 schema_hash
  send client_error has_key node (codes "registerSchema")
      (record { org_id = oid; schema_id = sid; schema_hash = hash; uri = uri })

-- The tuple that `getSchema` answers, and the dict made of it.
pub record SchemaTuple : Type 0 where
  pub issuer_org : Bytes
  pub schema_hash : Bytes
  pub uri : Bytes
  pub created_at : ℕ
  pub deprecated : Bool

unfoldable pub decode_schema : SchemaTuple → SchemaTuple
decode_schema raw = record raw { issuer_org = codes "0x" ++ to_hex raw.issuer_org }

-- None if the view reverts or the schema was never registered.
unfoldable pub get_schema : (Bytes → Result SchemaTuple) → BytesLike → Result (Option SchemaTuple)
unfolding or_on_revert stamped
get_schema view schema_id = do
  sid ← to_bytes32 schema_id
  raw ← or_on_revert none (do raw ← view sid; ok (some raw))
  elim raw [ none ↦ ok none | some raw ↦ ok (stamped raw.created_at decode_schema raw) ]

unfoldable pub is_active : (Bytes → Result Bool) → BytesLike → Result Bool
unfolding or_on_revert
is_active view schema_id = do sid ← to_bytes32 schema_id; or_on_revert false (view sid)

unfoldable pub exists : (Bytes → Result Bool) → BytesLike → Result Bool
unfolding or_on_revert
exists view schema_id = do sid ← to_bytes32 schema_id; or_on_revert false (view sid)
