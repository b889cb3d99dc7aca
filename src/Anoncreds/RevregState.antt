-- ===== src/Anoncreds/RevregState.antt =====
-- anoncreds/revreg_state.py: three kinds of records in the wallet's storage. A write hands on what the
-- storage raises; a read answers None where the storage raises.
pub mod Ids
pub mod Lookup
mod Tests
use aca_py_did_kanon.Prelude.{ℕ, Option, none, some, List, [], ◌∷◌, ◌++◌, Bytes, Result, ok, err}
use aca_py_did_kanon.Prelude.Hex.{codes}
use aca_py_did_kanon.Prelude.Decimal.{to_dec}
use aca_py_did_kanon.Storage.{Storage, Json, parsed, corrupt, upsert}

abbrev pub revreg_meta_record_type : Bytes
revreg_meta_record_type = codes "kanon/revreg/meta"

abbrev pub revreg_index_record_type : Bytes
revreg_index_record_type = codes "kanon/revreg/index"

abbrev pub cred_ex_cred_id_record_type : Bytes
cred_ex_cred_id_record_type = codes "kanon/credex/credid"

unfoldable pub meta_id : Bytes → Bytes
meta_id rev_reg_id = codes "kanon-revreg-meta:" ++ rev_reg_id

unfoldable pub index_id : Bytes → ℕ → Bytes
index_id rev_reg_id cred_rev_id =
    codes "kanon-revreg-index:" ++ (rev_reg_id ++ (b':' ∷ to_dec cred_rev_id))

unfoldable pub credex_id : Bytes → Bytes
credex_id cred_ex_id = codes "kanon-credex-credid:" ++ cred_ex_id

-- The JSON object of a registry's metadata.
pub record RevregMeta : Type 0 where
  pub rev_reg_id : Bytes
  pub cred_def_id : Bytes
  pub policy_mask : ℕ
  pub max_cred_num : ℕ
  pub rev_reg_def : Bytes
  pub initial_rev_list : Option Bytes

pub record CredexBinding : Type 0 where
  pub kanon_cred_id : Bytes
  pub cred_def_id : Bytes

-- `json.loads` of a record that a read found, None on a text that does not parse.
unfoldable pub loads {ℓ} : {A : Type ℓ} → Result (Option (Json A)) → Option A
loads (ok (some (parsed a))) = some a
loads (ok (some corrupt)) = none
loads (ok none) = none
loads (err e) = none

-- The text of a record that a read found; an empty text counts as no record.
unfoldable pub text_of : Result (Option Bytes) → Option Bytes
text_of (ok (some [])) = none
text_of (ok (some (c ∷ cs))) = some (c ∷ cs)
text_of (ok none) = none
text_of (err e) = none

module _ {S : Type 0} where
  unfoldable pub save_revreg_meta : Storage (Json RevregMeta) S → S → RevregMeta → Result S
  save_revreg_meta st s meta =
      upsert st s revreg_meta_record_type (meta_id meta.rev_reg_id) (parsed meta)

  unfoldable pub load_revreg_meta : Storage (Json RevregMeta) S → S → Bytes → Option RevregMeta
  unfolding loads
  load_revreg_meta st s rev_reg_id =
      loads (st.get_record s revreg_meta_record_type (meta_id rev_reg_id))

  unfoldable pub remember_cred_index : Storage Bytes S → S → Bytes → ℕ → Bytes → Result S
  remember_cred_index st s rev_reg_id cred_rev_id kanon_cred_id =
      upsert st s revreg_index_record_type (index_id rev_reg_id cred_rev_id) kanon_cred_id

  unfoldable pub lookup_cred_id : Storage Bytes S → S → Bytes → ℕ → Option Bytes
  unfolding text_of
  lookup_cred_id st s rev_reg_id cred_rev_id =
      text_of (st.get_record s revreg_index_record_type (index_id rev_reg_id cred_rev_id))

  unfoldable pub remember_credex_cred_id :
      Storage (Json CredexBinding) S → S → Bytes → Bytes → Bytes → Result S
  remember_credex_cred_id st s cred_ex_id kanon_cred_id cred_def_id =
      upsert st s cred_ex_cred_id_record_type (credex_id cred_ex_id)
        (parsed (record { kanon_cred_id = kanon_cred_id; cred_def_id = cred_def_id }))

  unfoldable pub lookup_cred_id_by_credex :
      Storage (Json CredexBinding) S → S → Bytes → Option CredexBinding
  unfolding loads
  lookup_cred_id_by_credex st s cred_ex_id =
      loads (st.get_record s cred_ex_cred_id_record_type (credex_id cred_ex_id))
