-- ===== src/Anoncreds/Revocation/Tests.antt =====
-- Revocation on a wallet in memory: index 3 has one credId, 9 none, and every other one another.
use aca_py_did_kanon.Prelude.{
  ℕ, ◌≡◌, ◌⊎◌, refl, true, Option, none, some, List, [], ◌∷◌, ◌++◌, map, if◌then◌else◌, Bytes,
  bytes_eq, Error, registration_error, ok, err,
}
use aca_py_did_kanon.Prelude.Dict.{Dict, get, put}
use aca_py_did_kanon.Prelude.Hex.{codes}
use aca_py_did_kanon.Prelude.Decimal.{to_dec, dec_digits}
use aca_py_did_kanon.Web3.Toy.{toy}
use aca_py_did_kanon.Storage.{Json, parsed, upsert, existing}
use aca_py_did_kanon.Storage.Memory.{by_id, by_id-StorageLaws, by_id-StorageFrame}
use aca_py_did_kanon.Contracts.Convert.{BytesLike, raw, to_bytes32}
use aca_py_did_kanon.Contracts.MerkleState.{Receipt}
use aca_py_did_kanon.Contracts.Transaction.{Node, send, build_send, build_fee_fields, caught}
use aca_py_did_kanon.Contracts.StatusRegistry.{revoke_credential, with_words}
use aca_py_did_kanon.Contracts.CredDefRegistry.{tier_one_time, tier_zk_snark}
use aca_py_did_kanon.Zk.Poseidon.Toy.{tables}
use aca_py_did_kanon.Zk.Issuer.Sync.{Chain}
use aca_py_did_kanon.Anoncreds.RevregState.{
  RevregMeta, load_revreg_meta, save_revreg_meta, lookup_cred_id, index_id, meta_id, loads, text_of,
}
use aca_py_did_kanon.Anoncreds.Revocation.{
  RevRegDef, RevList, RevListResult, Backend, Agent, rev_reg_id_of, has_tier, load_meta, save_meta,
  get_revocation_list,
}
use aca_py_did_kanon.Anoncreds.Revocation.Dispatch.{
  translate, revoke_status, revoke_statuses, publish, revoke_all, update_revocation_list,
}
use aca_py_did_kanon.Anoncreds.Revocation.Sent.{RevokedIf}
use aca_py_did_kanon.Anoncreds.Revocation.Outcomes.{
  update_revocation_list-did, update_revocation_list-ok,
}

abbrev receipt : Receipt
receipt = record { tx_hash = 1 ∷ []; block_number = 6; status = 1 }

abbrev node : Node (Bytes × Bytes)
node = record {
  base_fee = ok (some 7);
  max_priority_fee = ok 2;
  gas_price = ok 9;
  transaction_count = ok 4;
  chain_id = ok 5;
  estimate_gas = λ name args. ok 21000;
  send = λ tx. ok receipt;
}

abbrev no_chain : Chain
no_chain = record {
  has_key = true;
  tip = ok 5;
  latest_block = ok 5;
  added = λ c from_block to_block. ok [];
  revoked = λ c from_block to_block. ok [];
  initialize = λ call. ok receipt;
  send = λ call. ok receipt;
}

abbrev Wallet : Type 0
Wallet = Dict (Json RevregMeta)

abbrev known : Bytes → Option Bytes
known i =
    if bytes_eq i (index_id (codes "reg") 9)
    then none
    else some (if bytes_eq i (index_id (codes "reg") 3) then codes "c3" else codes "c4")

-- The ledger keeps the calls.
abbrev Calls : Type 0
Calls = List (BytesLike × BytesLike)

abbrev backend : Backend Wallet Calls
backend = record {
  metas = by_id (Json RevregMeta);
  indices = record {
    get_record = λ s t i. ok (known i);
    update_record = λ s t i v. ok s;
    add_record = λ s t i v. ok s;
  };
  checkpoints = record {
    get_record = λ s t i. ok none;
    update_record = λ s t i v. ok s;
    add_record = λ s t i v. ok s;
  };
  w = toy;
  registries = record {
    connected = ok tt;
    has_key = true;
    node = λ n. node;
    settled = λ cd ch calls. calls ++ (cd, ch) ∷ [];
    cred_def_view = λ n cd. err registration_error;
  };
  chain = no_chain;
  constants = tables;
}

abbrev def : RevRegDef
def = record {
  cred_def_id = codes "did:kanon:org:0x1/c";
  tag = codes "t";
  rev_reg_def_id = some (codes "reg");
  max_cred_num = 10;
  json = codes "d";
}

abbrev curr : RevList
curr = record { rev_reg_def_id = codes "reg"; json = codes "l" }

abbrev meta : ℕ → RevregMeta
meta mask = record {
  rev_reg_id = codes "reg";
  cred_def_id = codes "did:kanon:org:0x1/c";
  policy_mask = mask;
  max_cred_num = 10;
  rev_reg_def = codes "d";
  initial_rev_list = none;
}

abbrev agent : ℕ → Agent Wallet Calls
agent mask = record { store = (meta_id (codes "reg"), parsed (meta mask)) ∷ []; ledger = [] }

loads_meta :
    (mask : ℕ) → load_meta backend.metas (rev_reg_id_of def) (agent mask) ≡ some (meta mask)
unfolding load_meta load_revreg_meta rev_reg_id_of loads get meta_id bytes_eq
loads_meta mask = refl

has_zk : has_tier 3 tier_zk_snark ≡ true
unfolding has_tier
has_zk = refl

update_revocation_list-did_example :
    (e : Error) × ((update_revocation_list backend def curr (3 ∷ []) (agent 3)).0 ≡ err e)
    × ((e ≡ registration_error) ⊎ (backend.registries.connected ≡ err e))
update_revocation_list-did_example =
    update_revocation_list-did backend def curr 3 [] (agent 3) (meta 3) (codes "kanon:org:0x1/c")
      (loads_meta 3) refl has_zk

unmapped : (translate backend ((agent 1).store) (rev_reg_id_of def) (3 ∷ 9 ∷ [])).0 ≡ 9 ∷ []
unfolding translate lookup_cred_id text_of rev_reg_id_of index_id bytes_eq to_dec dec_digits
unmapped = refl

abbrev cd : BytesLike
cd = raw (toy.keccak_text (codes "did:kanon:org:0x1/c"))

abbrev updated : Agent Wallet Calls
updated = record {
  store =
      (meta_id (codes "reg"), parsed (record (meta 1) { initial_rev_list = some (codes "l") }))
      ∷ [];
  ledger = (cd, raw (toy.keccak_text (codes "c3"))) ∷ (cd, raw (toy.keccak_text (codes "c4"))) ∷ [];
}

abbrev result : RevListResult
result = record { revocation_list = curr; policy_mask = 1; revoked_count = some 2 }

runs : update_revocation_list backend def curr (3 ∷ 4 ∷ []) (agent 1) ≡ (ok result, updated)
unfolding update_revocation_list revoke_all translate publish revoke_statuses revoke_status
    save_meta load_meta load_revreg_meta save_revreg_meta lookup_cred_id text_of loads rev_reg_id_of
    index_id meta_id has_tier upsert existing get put revoke_credential with_words to_bytes32 send
    build_send build_fee_fields caught bytes_eq to_dec dec_digits
runs = refl

update_revocation_list-ok_example :
    (cred_ids : List Bytes) × (map
        (λ i. lookup_cred_id backend.indices ((agent 1).store) (rev_reg_id_of def) i)
        (3 ∷ 4 ∷ [])
      ≡ map some cred_ids)
    × RevokedIf toy backend.registries
        (toy.keccak_text (codes "did:kanon:org:0x1/c"))
        (has_tier 1 tier_one_time)
        []
        cred_ids
        updated.ledger
    × (result.revoked_count ≡ some 2)
    × (get_revocation_list backend.metas (λ json. ok curr) (rev_reg_id_of def) updated
        ≡ (ok (curr, 1), updated))
update_revocation_list-ok_example =
    update_revocation_list-ok backend (λ json. ok curr) def curr 3 (4 ∷ []) (agent 1) updated
      (meta 1) result (by_id-StorageLaws (Json RevregMeta)) (by_id-StorageFrame (Json RevregMeta))
      refl refl (loads_meta 1) runs
